-- ===== src/Manager/Lifecycle.antt =====
-- Which packets reach a dialogue from its registration on until it goes offline.
use geminio.Common.{
  inl, inr, ℕ, ◌≡◌, ◌≢◌, refl, Bool, true, false, get_elem?, none, some, ok, arith, ap, ◌∙◌,
}
use geminio.Packet.{Packet, PacketHeader, SessionFlags, SessionData, session_ack}
use geminio.Dialogue.{Dialogue, Fsm}
use geminio.Manager.{Manager, dialogue_not_found}
use geminio.Manager.Maps.{
  Table, lookup, insert, delete, lookup-insert_same, lookup-delete, update_other,
}
use geminio.Manager.Calls.{
  open_register, open_failed, open_done, dialogue_online, dialogue_offline, get_dialogue,
  dialogue_id_at, negotiating_id_at,
}
use geminio.Manager.Packets.{session_id, handle_pkt, hand_to, receive}
use geminio.Manager.Routing.{is_opening, Reaches, handle_pkt-Reaches, hand_to-same}

lookup-delete_same : (k : ℕ) (t : Table) → lookup k (delete k t) ≡ none
lookup-delete_same k t = lookup-delete k k t ∙ ground arith

-- A session ack whose negotiating identifier is known, and one whose is not.
ack-Reaches :
    (unix n id k j : ℕ) (t : Bool) (h : PacketHeader) (f : SessionFlags) (d : SessionData)
    (dg : Dialogue) (g : Manager)
    → lookup n g.negotiating ≡ some k
    → get_elem? g.store k ≡ some dg
    → dg.cancelled ≡ false
    → k ≢ j
    → Reaches (session_ack h f n id d) k dg j g (handle_pkt unix t (session_ack h f n id d) g)
unfolding handle_pkt hand_to
ack-Reaches unix n id k j t h f d dg g l e c a =
    let p = session_ack h f n id d in
    rw l (hand_to-same t p k dg g e c, update_other j k (receive t p) g.store a, refl, refl)

ack_lost :
    (unix n id : ℕ) (t : Bool) (h : PacketHeader) (f : SessionFlags) (d : SessionData) (g : Manager)
    → lookup n g.negotiating ≡ none
    → handle_pkt unix t (session_ack h f n id d) g ≡ ok g
unfolding handle_pkt
ack_lost unix n id t h f d g l = rw l refl

-- The identifiers of the dialogue at a place.
ids_at :
    (k : ℕ) (dg : Dialogue) (g : Manager)
    → get_elem? g.store k ≡ some dg
    → (dialogue_id_at k g ≡ dg.dialogue_id) × (negotiating_id_at k g ≡ dg.negotiating_id)
ids_at k dg g e = (rw (dialogue_id_at, e) refl, rw (negotiating_id_at, e) refl)

-- The states of a manager: a dialogue's opening is registered and done, or its peer's opening of it is.
abbrev pub waiting : ℕ → ℕ → Manager → Manager
waiting i k g = open_register i k g

abbrev pub opened : Fsm → ℕ → ℕ → Manager → Manager
opened fsm i k g = (open_done fsm i k (waiting i k g)).1

opened_lem :
    (fsm : Fsm) (i k : ℕ) (dg : Dialogue) (g : Manager)
    → g.mgr_ok ≡ true
    → get_elem? g.store k ≡ some dg
    → ((opened fsm i k g).negotiating ≡ delete i (insert i k g.negotiating))
      × ((opened fsm i k g).dialogues ≡ insert dg.dialogue_id k g.dialogues)
      × ((opened fsm i k g).store ≡ g.store)
      × ((opened fsm i k g).client_id ≡ g.client_id)
unfolding open_done open_register
opened_lem fsm i k dg g o e =
    let same = (ids_at k dg g e).0 in
    rw (o, open_done) (refl, ap (λ x. insert x k g.dialogues) same, refl, refl)

online_lem :
    (k : ℕ) (dg : Dialogue) (g : Manager)
    → g.mgr_ok ≡ true
    → get_elem? g.store k ≡ some dg
    → ((dialogue_online k g).1.negotiating ≡ delete dg.negotiating_id g.negotiating)
      × ((dialogue_online k g).1.dialogues ≡ insert dg.dialogue_id k g.dialogues)
      × ((dialogue_online k g).1.store ≡ g.store)
unfolding dialogue_online
online_lem k dg g o e =
    let (ready, negotiating) = ids_at k dg g e in
    rw (o, dialogue_online)
      (ap (λ x. delete x g.negotiating) negotiating, ap (λ x. insert x k g.dialogues) ready, refl)

offline_lem :
    (k v : ℕ) (dg : Dialogue) (g : Manager)
    → get_elem? g.store k ≡ some dg
    → lookup dg.dialogue_id g.dialogues ≡ some v
    → ((dialogue_offline k g).1.dialogues ≡ delete dg.dialogue_id g.dialogues)
      × ((dialogue_offline k g).1.client_id ≡ g.client_id)
unfolding dialogue_offline
offline_lem k v dg g e l =
    let same = (ids_at k dg g e).0 in
    let there : lookup (dialogue_id_at k g) g.dialogues ≡ some v =
      ap (λ x. lookup x g.dialogues) same ∙ l in
    rw (dialogue_offline, there) (ap (λ x. delete x g.dialogues) same, refl)

-- GetDialogue for the client of the connection.
get_dialogue_found :
    (client id k : ℕ) (g : Manager)
    → g.client_id ≡ client
    → lookup id g.dialogues ≡ some k
    → get_dialogue client id g ≡ inr k
unfolding get_dialogue
get_dialogue_found client id k g c l = rw (l, get_dialogue) (ground arith)

get_dialogue_lost :
    (client id : ℕ) (g : Manager)
    → g.client_id ≡ client
    → lookup id g.dialogues ≡ none
    → get_dialogue client id g ≡ inl dialogue_not_found
unfolding get_dialogue
get_dialogue_lost client id g c l = rw (l, get_dialogue) (ground arith)

-- An open manager has a dialogue at place `k` that is not cancelled. Once an opening under `i` is registered for
-- it, a session ack for `i` reaches it and no other dialogue. When the opening fails, such a packet changes
-- nothing. When it is done, such a packet changes nothing either, every packet behind the opening handshake with the
-- dialogue's identifier reaches it and no other, and GetDialogue gives it; after it went offline GetDialogue
-- finds it no more. A dialogue that the peer opened and that comes online is reached in the same way, and a
-- session ack for its negotiating identifier changes nothing then.
pub opened-Reaches :
    (fsm : Fsm) (unix i k j id : ℕ) (t : Bool) (h : PacketHeader) (f : SessionFlags)
    (d : SessionData) (p : Packet) (dg : Dialogue) (g : Manager)
    → g.mgr_ok ≡ true
    → get_elem? g.store k ≡ some dg
    → dg.cancelled ≡ false
    → is_opening p ≡ false
    → session_id p ≡ some dg.dialogue_id
    → k ≢ j
    → let ack = session_ack h f i id d in
      let known = opened fsm i k g in
      let online = (dialogue_online k g).1 in
      Reaches ack k dg j (waiting i k g) (handle_pkt unix t ack (waiting i k g))
      × (handle_pkt unix t ack (open_failed i (waiting i k g)) ≡ ok (open_failed i (waiting i k g)))
      × (handle_pkt unix t ack known ≡ ok known)
      × Reaches p k dg j known (handle_pkt unix t p known)
      × (get_dialogue g.client_id dg.dialogue_id known ≡ inr k)
      × (get_dialogue g.client_id dg.dialogue_id (dialogue_offline k known).1
          ≡ inl dialogue_not_found)
      × Reaches p k dg j online (handle_pkt unix t p online)
      × (handle_pkt unix t (session_ack h f dg.negotiating_id id d) online ≡ ok online)
unfolding open_register open_failed
opened-Reaches fsm unix i k j id t h f d p dg g o e c b s a =
    let (forgotten, ready, store, client) = opened_lem fsm i k dg g o e in
    let (left, known_online, stays) = online_lem k dg g o e in
    let found : lookup dg.dialogue_id (opened fsm i k g).dialogues ≡ some k =
      ap (lookup dg.dialogue_id) ready ∙ lookup-insert_same dg.dialogue_id k g.dialogues in
    let found_online : lookup dg.dialogue_id (dialogue_online k g).1.dialogues ≡ some k =
      ap (lookup dg.dialogue_id) known_online ∙ lookup-insert_same dg.dialogue_id k g.dialogues in
    let kept : get_elem? (opened fsm i k g).store k ≡ some dg = ap (λ x. get_elem? x k) store ∙ e in
    let (dropped, same_client) = offline_lem k k dg (opened fsm i k g) kept found in
    let kept_online : get_elem? (dialogue_online k g).1.store k ≡ some dg =
      ap (λ x. get_elem? x k) stays ∙ e in
    (
      ack-Reaches unix i id k j t h f d dg (waiting i k g) (lookup-insert_same i k g.negotiating) e
          c a,
      ack_lost unix i id t h f d (open_failed i (waiting i k g))
          (lookup-delete_same i (insert i k g.negotiating)),
      ack_lost unix i id t h f d (opened fsm i k g)
          (ap (lookup i) forgotten ∙ lookup-delete_same i (insert i k g.negotiating)),
      handle_pkt-Reaches unix dg.dialogue_id k j t p dg (opened fsm i k g) b s (inl found) kept c a,
      get_dialogue_found g.client_id dg.dialogue_id k (opened fsm i k g) client found,
      get_dialogue_lost g.client_id dg.dialogue_id (dialogue_offline k (opened fsm i k g)).1
          (same_client ∙ client)
          (ap (lookup dg.dialogue_id) dropped
            ∙ lookup-delete_same dg.dialogue_id (opened fsm i k g).dialogues),
      handle_pkt-Reaches unix dg.dialogue_id k j t p dg (dialogue_online k g).1 b s
          (inl found_online) kept_online c a,
      ack_lost unix dg.negotiating_id id t h f d (dialogue_online k g).1
          (ap (lookup dg.negotiating_id) left ∙ lookup-delete_same dg.negotiating_id g.negotiating),
    )
