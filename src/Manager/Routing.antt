-- ===== src/Manager/Routing.antt =====
-- Which dialogue a packet reaches, and that it reaches no other.
use geminio.Common.{
  ◌⊎◌, inl, inr, ℕ, ◌<◌, ◌≡◌, ◌≢◌, refl, Bool, true, false, [], ◌∷◌, ◌++◌, length, get_elem?,
  Option, none, some, Outcome, ok, arith, ap, ◌∙◌,
}
use geminio.IdCounter.{IdCounter, get_id}
use geminio.Packet.{
  Packet, PacketHeader, SessionFlags, SessionData, conn, conn_ack, dis_conn, dis_conn_ack,
  heartbeat, heartbeat_ack, session, session_ack, dismiss, dismiss_ack, message, message_ack,
  stream, request, response, request_cancel, register, register_ack,
}
use geminio.Dialogue.{Dialogue}
use geminio.Dialogue.Opening.{new_dialogue}
use geminio.Manager.{Manager}
use geminio.Manager.Maps.{
  lookup, update_same, update_other, lookup-insert_same, get_elem?-append, get_elem?-last,
}
use geminio.Manager.Calls.{
  open_begin, draw_negotiating_id, make_dialogue, open_register, peers_call,
}
use geminio.Manager.Packets.{session_id, find, receive, hand_to, hand_found, handle_pkt}

-- A packet of the opening handshake.
abbrev pub is_opening : Packet → Bool
is_opening (session h f id d) = true
is_opening (session_ack h f n id d) = true
is_opening p = false

-- What `p` is handed to.
abbrev handed : Bool → Packet → Option ℕ → Manager → Outcome Manager
handed t p none g = ok g
handed t p (some id) g = ok (hand_found t p (find id g) g)

handle_pkt-handed :
    (unix : ℕ) (t : Bool) (p : Packet) (g : Manager)
    → is_opening p ≡ false
    → handle_pkt unix t p g ≡ handed t p (session_id p) g
unfolding handle_pkt session_id
handle_pkt-handed unix t (conn h f id d) g e = refl
handle_pkt-handed unix t (conn_ack h r id d) g e = refl
handle_pkt-handed unix t (dis_conn h) g e = refl
handle_pkt-handed unix t (dis_conn_ack h r d) g e = refl
handle_pkt-handed unix t (heartbeat h) g e = refl
handle_pkt-handed unix t (heartbeat_ack h) g e = refl
handle_pkt-handed unix t (session h f id d) g e = cc
handle_pkt-handed unix t (session_ack h f n id d) g e = cc
handle_pkt-handed unix t (dismiss h id d) g e = refl
handle_pkt-handed unix t (dismiss_ack h id d) g e = refl
handle_pkt-handed unix t (message h id d) g e = refl
handle_pkt-handed unix t (message_ack h id d) g e = refl
handle_pkt-handed unix t (stream h id bs) g e = refl
handle_pkt-handed unix t (request h id d) g e = refl
handle_pkt-handed unix t (response h id d) g e = refl
handle_pkt-handed unix t (request_cancel h id c) g e = refl
handle_pkt-handed unix t (register h id d) g e = refl
handle_pkt-handed unix t (register_ack h id d) g e = refl

-- The dialogue at place `k` has `p` behind what it had, and what is at `j` is what it was.
abbrev pub Reaches : Packet → ℕ → Dialogue → ℕ → Manager → Outcome Manager → Type 0
Reaches p k dg j g (ok b) =
    (get_elem? b.store k ≡ some (record dg { read_in = dg.read_in ++ p ∷ [] }))
    × (get_elem? b.store j ≡ get_elem? g.store j)
    × (b.dialogues ≡ g.dialogues)
    × (b.negotiating ≡ g.negotiating)
Reaches p k dg j g _ = ⊥

receive_lem :
    (t : Bool) (p : Packet) (dg : Dialogue)
    → dg.cancelled ≡ false
    → receive t p dg ≡ record dg { read_in = dg.read_in ++ p ∷ [] }
unfolding receive
receive_lem t p dg c = rw c refl

pub hand_to-same :
    (t : Bool) (p : Packet) (k : ℕ) (dg : Dialogue) (g : Manager)
    → get_elem? g.store k ≡ some dg
    → dg.cancelled ≡ false
    → get_elem? (hand_to t p k g).store k ≡ some (record dg { read_in = dg.read_in ++ p ∷ [] })
unfolding hand_to
hand_to-same t p k dg g e c =
    update_same k (receive t p) g.store
    ∙ ap (λ o. elim o as (λ x. Option Dialogue) [ none ↦ none | some x ↦ some (receive t p x) ]) e
    ∙ ap some (receive_lem t p dg c)

find_lem :
    (id k : ℕ) (g : Manager)
    → (lookup id g.dialogues ≡ some k)
      ⊎ ((lookup id g.dialogues ≡ none) × (lookup id g.negotiating ≡ some k))
    → find id g ≡ some k
unfolding find
find_lem id k g (inl l) = rw (l, find) refl
find_lem id k g (inr (n, l)) = rw (n, find) l

-- A packet that is not of the opening handshake and has a session identifier reaches the dialogue that
-- is ready under it, or if there is none the one that negotiates under it, provided that this is not
-- cancelled, and it reaches no other; the maps stay.
pub handle_pkt-Reaches :
    (unix id k j : ℕ) (t : Bool) (p : Packet) (dg : Dialogue) (g : Manager)
    → is_opening p ≡ false
    → session_id p ≡ some id
    → (lookup id g.dialogues ≡ some k)
      ⊎ ((lookup id g.dialogues ≡ none) × (lookup id g.negotiating ≡ some k))
    → get_elem? g.store k ≡ some dg
    → dg.cancelled ≡ false
    → k ≢ j
    → Reaches p k dg j g (handle_pkt unix t p g)
unfolding hand_to
handle_pkt-Reaches unix id k j t p dg g o i f e c n = rw (handle_pkt-handed unix t p g o) (
    rw i (
      rw (find_lem id k g f)
        (hand_to-same t p k dg g e c, update_other j k (receive t p) g.store n, refl, refl)))

-- The manager `b` has a new dialogue at place `k`, which negotiates under `i` and holds `p`; what is at
-- `j` and the ready dialogues are what they were.
abbrev pub Makes : Packet → Dialogue → ℕ → ℕ → ℕ → IdCounter → Manager → Outcome Manager → Type 0
Makes p dg k i j ids g (ok b) =
    (get_elem? b.store k ≡ some (record dg { read_in = p ∷ [] }))
    × (lookup i b.negotiating ≡ some k)
    × (get_elem? b.store j ≡ get_elem? g.store j)
    × (b.dialogues ≡ g.dialogues)
    × (b.ids ≡ some ids)
Makes p dg k i j ids g _ = ⊥

-- A session packet reaches a new dialogue, which has the packet's meta and peer and negotiates under the
-- next identifier; every other dialogue stays as it is.
pub handle_pkt-Makes :
    (unix i j : ℕ) (t : Bool) (h : PacketHeader) (f : SessionFlags) (id : ℕ) (d : SessionData)
    (c c' : IdCounter) (g : Manager)
    → g.ids ≡ some c
    → get_id unix c ≡ (ok i, c')
    → j < length g.store
    → Makes
        (session h f id d)
        (new_dialogue g.pf d.meta d.peer i (peers_call g.side) none)
        (length g.store)
        i
        j
        c'
        g
        (handle_pkt unix t (session h f id d) g)
unfolding handle_pkt open_begin draw_negotiating_id make_dialogue open_register new_dialogue hand_to
handle_pkt-Makes unix i j t h f id d c c' g s e l =
    let p = session h f id d in
    let dg = new_dialogue g.pf d.meta d.peer i (peers_call g.side) none in
    let k = length g.store in
    let away : k ≢ j = λ q. omega arith in
    let made = open_register i k (make_dialogue i d.meta d.peer (record g { ids = some c' })) in
    rw s (
      rw e (
        hand_to-same t p k dg made (get_elem?-last g.store dg) refl,
        lookup-insert_same i k g.negotiating,
        update_other j k (receive t p) (g.store ++ dg ∷ []) away
            ∙ get_elem?-append g.store (dg ∷ []) j l,
        refl,
        refl,
      ))
