-- ===== src/Dialogue/Handshake.antt =====
-- What the opening handshake comes to, accepted and refused.
use geminio.Common.{
  ℕ, ◌≡◌, refl, Bool, true, false, List, [], ◌∷◌, Option, none, some, ok, if◌then◌else◌,
}
use geminio.IdCounter.{IdCounter, get_id}
use geminio.Packet.{type_session, type_session_ack, Packet, session, session_ack}
use geminio.Packet.RoundTrip.Peer.{as_received}
use geminio.Packet.RoundTrip.Headers.{sent}
use geminio.Packet.Ids.{packet_id}
use geminio.Packet.Factory.{
  header, at_least_once, new_session_flags, session_data, new_session_packet,
  new_session_ack_packet, with_new_id,
}
use geminio.Dialogue.{session_recv, sessioned, Fsm, send_in, hub_add, hub_done, Moment, Dialogue}
use geminio.Dialogue.Closing.{call_hub}
use geminio.Dialogue.Loop.{open_dialogue, run_task, send_to_write_in}
use geminio.Dialogue.Opening.{
  new_dialogue, handshake, last, writes_session, reads_session, accepts_session, refuses_session,
  reads_session_ack, dismissal, ◌>>=◌,
}

-- Both sides after a handshake that the other accepts.
abbrev pub AreOpen : ℕ → ℕ → List ℕ → Option (Dialogue × Dialogue) → Type 0
AreOpen i agreed meta none = ⊥
AreOpen i agreed meta (some (a, b)) =
    (a.state ≡ sessioned)
    × (b.state ≡ sessioned)
    × (a.onlined ≡ true)
    × (b.onlined ≡ true)
    × (a.dialogue_id ≡ agreed)
    × (b.dialogue_id ≡ agreed)
    × (a.hub ≡ hub_add i ∷ hub_done i ∷ [])
    × (b.meta ≡ meta)
    × (a.meta ≡ [])

-- The error that a session ack carries.
abbrev pub sent_error : Packet → List ℕ
sent_error (session_ack h f n id d) = d.error
sent_error _ = []

-- Both sides after a handshake that the other's delegate refuses with the error `x`.
abbrev pub IsOpenAlone : ℕ → ℕ → ℕ → List ℕ → Option (Dialogue × Dialogue) → Type 0
IsOpenAlone i j agreed x none = ⊥
IsOpenAlone i j agreed x (some (a, b)) =
    (a.state ≡ sessioned)
    × (a.onlined ≡ true)
    × (a.hub ≡ hub_add i ∷ hub_done i ∷ [])
    × (b.state ≡ session_recv)
    × (b.onlined ≡ false)
    × (b.closing ≡ true)
    × (b.closewait ≡ some j)
    × (b.tasks ≡ send_in (dismissal j agreed) ∷ [])
    × (b.hub ≡ hub_add j ∷ [])
    × (elim (last b.write_out) [ none ↦ none | some p ↦ some (sent_error p) ] ≡ some x)

module _ (fsm : Fsm) where
  -- A new dialogue opens towards another new one, whose delegate accepts it or is absent. Both get
  -- sessioned and onlined, with the same identifier: the opener's, or the other's if the opener
  -- acquires one. The waiting open is done. The other has the opener's meta; the opener's own is
  -- overwritten by the answer's, which is empty.
  pub handshake_accepted :
      (at bt : Moment) (n k i : ℕ) (c ids ids' : IdCounter) (meta meta' peer peer' : List ℕ)
      (id id' : ℕ) (acquire acquire' : Bool) (failed failed' : Option (List Packet))
      → get_id at.unix ids ≡ (ok i, c)
      → (if bt.has_delegate then bt.online_error else none) ≡ none
      → AreOpen i (if acquire then id' else id) meta (
          handshake fsm at bt n k
            (new_dialogue ids meta peer id acquire failed)
            (new_dialogue ids' meta' peer' id' acquire' failed'))
  unfolding handshake new_dialogue open_dialogue run_task send_to_write_in new_session_packet
      new_session_ack_packet with_new_id packet_id as_received
  handshake_accepted at bt n k i c ids ids' meta meta' peer peer' id id' acquire acquire' failed
        failed' e ac =
      let a =
        call_hub (hub_add i) (record (new_dialogue ids meta peer id acquire failed) { ids = c }) in
      let new_b = new_dialogue ids' meta' peer' id' acquire' failed' in
      let h = header type_session i at_least_once in
      let f = new_session_flags acquire in
      let d = session_data meta [] peer in
      let agreed = if acquire then id' else id in
      let ack = header type_session_ack i at_least_once in
      let g = new_session_flags false in
      let empty = session_data [] [] [] in
      let b = record new_b { meta = meta; peer_negotiating_id = id; dialogue_id = agreed } in
      let a_sent = record a { write_out = session h f id d ∷ [] } in
      rw e (
        rw (writes_session fsm at h f id d a, ◌>>=◌)
          (rw (reads_session fsm bt (sent h n) f id d new_b, ◌>>=◌)
            (rw (accepts_session fsm bt ack g id agreed empty b ac, ◌>>=◌)
              (rw (reads_session_ack fsm at (sent ack k) g id agreed empty a_sent, ◌>>=◌)
                (refl, refl, refl, refl, refl, refl, refl, refl, refl)))))

  -- A new dialogue opens towards another new one whose delegate refuses it with the error `x`. The
  -- answer carries the error; the other side is not onlined, its Close has run and has a DismissPacket with
  -- the dialogue's identifier to send. Yet the opener gets sessioned and onlined, and its open is done.
  pub handshake_refused :
      (at bt : Moment) (n k i j : ℕ) (c c' ids ids' : IdCounter) (meta meta' peer peer' : List ℕ)
      (id id' : ℕ) (acquire acquire' : Bool) (failed failed' : Option (List Packet)) (x : List ℕ)
      → get_id at.unix ids ≡ (ok i, c)
      → get_id bt.unix ids' ≡ (ok j, c')
      → (if bt.has_delegate then bt.online_error else none) ≡ some x
      → IsOpenAlone i j (if acquire then id' else id) x (
          handshake fsm at bt n k
            (new_dialogue ids meta peer id acquire failed)
            (new_dialogue ids' meta' peer' id' acquire' failed'))
  unfolding handshake new_dialogue open_dialogue run_task send_to_write_in new_session_packet
      new_session_ack_packet with_new_id packet_id as_received
  handshake_refused at bt n k i j c c' ids ids' meta meta' peer peer' id id' acquire acquire' failed
        failed' x e e' ne =
      let a =
        call_hub (hub_add i) (record (new_dialogue ids meta peer id acquire failed) { ids = c }) in
      let new_b = new_dialogue ids' meta' peer' id' acquire' failed' in
      let h = header type_session i at_least_once in
      let f = new_session_flags acquire in
      let d = session_data meta [] peer in
      let agreed = if acquire then id' else id in
      let ack = header type_session_ack i at_least_once in
      let g = new_session_flags false in
      let empty = session_data [] [] [] in
      let b = record new_b { meta = meta; peer_negotiating_id = id; dialogue_id = agreed } in
      let a_sent = record a { write_out = session h f id d ∷ [] } in
      rw e (
        rw (writes_session fsm at h f id d a, ◌>>=◌)
          (rw (reads_session fsm bt (sent h n) f id d new_b, ◌>>=◌)
            (rw (refuses_session fsm bt ack g id agreed j c' empty b x ne e', ◌>>=◌)
              (rw
                (
                  reads_session_ack fsm at (sent ack k) g id agreed (record empty { error = x })
                      a_sent,
                  ◌>>=◌,
                )
                (refl, refl, refl, refl, refl, refl, refl, refl, refl, refl)))))
