-- ===== src/Dialogue/Opening.antt =====
-- NewDialogue, and the opening handshake of two dialogues with a connection between them.
use geminio.Common.{
  ℕ, ◌≡◌, refl, Bool, true, false, List, [], ◌∷◌, ◌++◌, Option, none, some, Outcome, ok, err, panic,
  if◌then◌else◌,
}
use geminio.Machine.{registered}
use geminio.IdCounter.{IdCounter, get_id}
use geminio.Packet.{
  Packet, PacketHeader, SessionFlags, SessionData, session, session_ack, dismiss, type_dismiss,
}
use geminio.Packet.RoundTrip.Peer.{as_received}
use geminio.Packet.Factory.{
  new_session_ack_packet, new_dismiss_packet, with_new_id, header, at_least_once, session_data,
}
use geminio.Packet.Ids.{packet_id}
use geminio.Dialogue.{
  State, event_code, state_code, init, session_sent, session_recv, sessioned, Event,
  et_session_sent, et_session_recv, et_error, transitions, Fsm, Task, send_in, hub_done, hub_add,
  Moment, Dialogue,
}
use geminio.Dialogue.Handlers.{
  emit, send_to_write_out, handle_in, handle_out, handle_in_session_packet,
  handle_in_session_ack_packet, handle_out_session_packet, handle_out_session_ack_packet,
  accept_session, refuse_session,
}
use geminio.Dialogue.Closing.{close, dismiss_once}
use geminio.Dialogue.Loop.{open_dialogue, on_write_in, on_read_in, run_task, after_handler}

-- A DismissPacket of the factory.
abbrev pub dismissal : ℕ → ℕ → Packet
dismissal i id = dismiss (header type_dismiss i at_least_once) id (session_data [] [] [])

-- NewDialogue with the options for the meta, the peer and the negotiating identifier, and the
-- delegate's failedCh or none.
unfoldable pub new_dialogue :
    IdCounter → List ℕ → List ℕ → ℕ → Bool → Option (List Packet) → Dialogue
new_dialogue ids meta peer id peers_call failed = record {
  state = init;
  ids = ids;
  meta = meta;
  peer = peer;
  onlined = false;
  closewait = none;
  negotiating_id = id;
  peer_negotiating_id = 0;
  peers_call = peers_call;
  dialogue_id = 0;
  cancelled = false;
  closing = false;
  finished = false;
  read_in = [];
  write_out = [];
  read_out = [];
  write_in = [];
  failed = failed;
  tasks = [];
  hub = [];
  offline_calls = 0;
}

abbrev pub last : List Packet → Option Packet
last [] = none
last (p ∷ []) = some p
last (p ∷ q ∷ ps) = last (q ∷ ps)

abbrev pub result : {A : Type 0} → Outcome A → Option A
result (ok a) = some a
result (err e) = none
result panic = none

abbrev pub first_task : Moment → List Task → Dialogue → Option Dialogue
first_task m [] dg = none
first_task m (t ∷ ts) dg = result (run_task m t (record dg { tasks = ts }))

abbrev pub settled : {A : Type 0} → Option (Outcome A) → Option A
settled none = none
settled (some o) = result o

infixl 5 ◌>>=◌
abbrev pub ◌>>=◌ : {A B : Type 0} → Option A → (A → Option B) → Option B
none >>= f = none
some a >>= f = f a

-- A packet crosses the connection with `n` bytes behind its header.
abbrev pub deliver : ℕ → Packet → Dialogue → Dialogue
deliver n p dg = record dg { read_in = dg.read_in ++ as_received n p ∷ [] }

module _ (fsm : Fsm) where
  -- `a` opens; its packet goes to `b`, and the answer back. The moments are those of the two sides.
  unfoldable pub handshake :
      Moment → Moment → ℕ → ℕ → Dialogue → Dialogue → Option (Dialogue × Dialogue)
  handshake at bt n k a b = do
    (x, a) ← result (open_dialogue at a)
    a ← settled (on_write_in fsm at a)
    p ← last a.write_out
    b ← on_read_in fsm bt (deliver n p b)
    b ← first_task bt b.tasks b
    b ← settled (on_write_in fsm bt b)
    q ← last b.write_out
    a ← on_read_in fsm at (deliver k q a)
    some (a, b)

  pub follows :
      (e : Event) (s : State)
      → fsm.emit_event transitions e s ≡ registered event_code state_code transitions e s
  follows e s = fsm.emit_event_registered transitions e s refl

  -- The four handlers, one after the other, on dialogues that have nothing else to do.
  pub writes_session :
      (m : Moment) (h : PacketHeader) (f : SessionFlags) (id : ℕ) (d : SessionData) (dg : Dialogue)
      → on_write_in fsm m
          (record dg { state = init; cancelled = false; write_in = session h f id d ∷ [] })
        ≡ some (
            ok (record dg {
              state = session_sent;
              cancelled = false;
              write_in = [];
              write_out = dg.write_out ++ session h f id d ∷ [];
            }))
  unfolding on_write_in after_handler handle_out handle_out_session_packet emit send_to_write_out
  writes_session m h f id d dg = rw (follows et_session_sent init, emit) refl

  pub reads_session :
      (m : Moment) (h : PacketHeader) (f : SessionFlags) (id : ℕ) (d : SessionData) (dg : Dialogue)
      → on_read_in fsm m (record dg { state = init; read_in = session h f id d ∷ [] }) ≡ (
          let agreed = if f.session_id_acquire then dg.negotiating_id else id in
          some (record dg {
            state = session_recv;
            read_in = [];
            peer_negotiating_id = id;
            dialogue_id = agreed;
            meta = d.meta;
            tasks = dg.tasks ++ send_in (new_session_ack_packet h.packet_id id agreed none) ∷ [];
          }))
  unfolding on_read_in after_handler handle_in handle_in_session_packet emit
  reads_session m h f id d dg = rw (follows et_session_recv init, emit) refl

  pub accepts_session :
      (m : Moment) (h : PacketHeader) (f : SessionFlags) (n id : ℕ) (d : SessionData)
      (dg : Dialogue)
      → (if m.has_delegate then m.online_error else none) ≡ none
      → on_write_in fsm m (record dg {
        state = session_recv;
        cancelled = false;
        write_in = session_ack h f n id d ∷ [];
      })
        ≡ some (
            ok (record dg {
              state = sessioned;
              cancelled = false;
              onlined = true;
              write_in = [];
              write_out = dg.write_out ++ session_ack h f n id d ∷ [];
            }))
  unfolding on_write_in after_handler handle_out handle_out_session_ack_packet accept_session emit
  accepts_session m h f n id d dg ac =
      rw (ac, handle_out_session_ack_packet) (rw (follows et_session_recv session_recv, emit) refl)

  pub refuses_session :
      (m : Moment) (h : PacketHeader) (f : SessionFlags) (n id j : ℕ) (c : IdCounter)
      (d : SessionData) (dg : Dialogue) (x : List ℕ)
      → (if m.has_delegate then m.online_error else none) ≡ some x
      → get_id m.unix dg.ids ≡ (ok j, c)
      → on_write_in fsm m (record dg {
        state = session_recv;
        cancelled = false;
        closing = false;
        write_in = session_ack h f n id d ∷ [];
      })
        ≡ some (
            ok (record dg {
              state = session_recv;
              cancelled = false;
              closing = true;
              closewait = some j;
              ids = c;
              hub = dg.hub ++ hub_add j ∷ [];
              write_in = [];
              tasks = dg.tasks ++ send_in (dismissal j dg.dialogue_id) ∷ [];
              write_out = dg.write_out ++ session_ack h f n id (record d { error = x }) ∷ [];
            }))
  unfolding on_write_in after_handler handle_out handle_out_session_ack_packet refuse_session close
      dismiss_once new_dismiss_packet with_new_id send_to_write_out packet_id
  refuses_session m h f n id j c d dg x e g =
      rw (e, handle_out_session_ack_packet)
        (rw (follows et_error session_recv, refuse_session) (rw (g, close, dismiss_once) refl))

  pub reads_session_ack :
      (m : Moment) (h : PacketHeader) (f : SessionFlags) (n id : ℕ) (d : SessionData)
      (dg : Dialogue)
      → on_read_in fsm m (record dg { state = session_sent; read_in = session_ack h f n id d ∷ [] })
        ≡ some (record dg {
          state = sessioned;
          read_in = [];
          dialogue_id = id;
          meta = d.meta;
          onlined = true;
          hub = dg.hub ++ hub_done h.packet_id ∷ [];
        })
  unfolding on_read_in after_handler handle_in handle_in_session_ack_packet emit
  reads_session_ack m h f n id d dg = rw (follows et_session_recv session_sent, emit) refl
