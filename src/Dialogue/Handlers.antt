-- ===== src/Dialogue/Handlers.antt =====
-- handleIn, handleOut and the handlers that they call.
use geminio.Common.{
  Outcome, ok, ◌>>=◌, ℕ, Bool, true, ◌&&◌, ◌||◌, [], ◌∷◌, ◌++◌, none, some, if◌then◌else◌, ◌==◌,
}
use geminio.Packet.{
  PacketHeader, Packet, SessionFlags, SessionData, session, session_ack, dismiss, dismiss_ack,
}
use geminio.Packet.Factory.{new_session_ack_packet, new_dismiss_ack_packet}
use geminio.Dialogue.Closing.{call_hub, close}
use geminio.Dialogue.{
  State, sessioned, dismiss_sent, dismiss_recv, dismiss_half, Event, et_session_sent,
  et_session_recv, et_session_ack, et_error, et_dismiss_sent, et_dismiss_recv, et_dismiss_ack,
  transitions, state_code, Fsm, IoRet, io_success, io_new_active, io_new_passive, io_closed, io_err,
  io_discard, send_in, close_async, hub_done, hub_error, sync_done, Moment, Dialogue,
}

-- What a handler of an outgoing packet gives: its result and the dialogue, or a panic.
abbrev pub Handled : Type 0
Handled = Outcome (IoRet × Dialogue)

-- Whether the context's branch of a `select` is taken; else the packet is sent.
abbrev pub gives_up : Moment → Dialogue → Bool
gives_up m dg = dg.cancelled && m.takes_done

-- A packet for writeOutCh, and the result of the handler if it is sent. io.EOF ends in IOClosed.
unfoldable pub send_to_write_out : Moment → Packet → IoRet → Dialogue → IoRet × Dialogue
send_to_write_out m p ret dg =
    if gives_up m dg
    then (io_closed, dg)
    else (ret, record dg { write_out = dg.write_out ++ p ∷ [] })

-- `go func() { dg.sendToWriteIn(retPkt) }()`
abbrev pub spawn_send : Packet → Dialogue → Dialogue
spawn_send p dg = record dg { tasks = dg.tasks ++ send_in p ∷ [] }

-- `if dg.closewait != nil { dg.closewait.Done() }`
unfoldable pub finish_closewait : Dialogue → Dialogue
finish_closewait dg = elim dg.closewait [ none ↦ dg | some id ↦ call_hub (sync_done id) dg ]

abbrev pub in_state : Dialogue → State → Bool
in_state dg s = state_code dg.state == state_code s

-- DISMISS_HALF has another acknowledgement to come; after the last one the dialogue closes.
abbrev pub after_ack : Dialogue → IoRet × Dialogue
after_ack dg =
    if in_state dg dismiss_half then (io_success, dg) else (io_closed, finish_closewait dg)

-- `if dg.failedCh != nil { dg.failedCh <- pkt }`
abbrev pub fail : Packet → Dialogue → Dialogue
fail p dg = elim dg.failed [ none ↦ dg | some ps ↦ record dg { failed = some (ps ++ p ∷ []) } ]

module _ (fsm : Fsm) where
  -- EmitEvent, and what follows when it succeeds.
  unfoldable pub emit :
      Event
      → Dialogue
      → (Dialogue → IoRet × Dialogue)
      → (Dialogue → IoRet × Dialogue)
      → IoRet × Dialogue
  emit e dg failure success = elim (fsm.emit_event transitions e dg.state) [
    | none ↦ failure dg
    | some s ↦ success (record dg { state = s })
  ]

  abbrev pub refused : Dialogue → IoRet × Dialogue
  refused dg = (io_err, dg)

  unfoldable pub handle_in_session_packet :
      PacketHeader → SessionFlags → ℕ → SessionData → Dialogue → IoRet × Dialogue
  unfolding emit
  handle_in_session_packet h f id d dg =
      emit et_session_recv (record dg { peer_negotiating_id = id }) refused
        (λ dg.
          let agreed = if f.session_id_acquire then dg.negotiating_id else id in
          (
            io_success,
            spawn_send (new_session_ack_packet h.packet_id id agreed none)
                (record dg { dialogue_id = agreed; meta = d.meta }),
          ))

  unfoldable pub handle_in_session_ack_packet :
      PacketHeader → ℕ → SessionData → Dialogue → IoRet × Dialogue
  unfolding emit
  handle_in_session_ack_packet h id d dg =
      emit et_session_ack dg (λ dg. (io_err, call_hub (hub_error h.packet_id) dg))
        (λ dg.
          let agreed = record dg { dialogue_id = id; meta = d.meta } in
          (io_new_active, record (call_hub (hub_done h.packet_id) agreed) { onlined = true }))

  -- The last acknowledgement of a simultaneous close is sent at once.
  unfoldable pub handle_in_dismiss_packet : Moment → PacketHeader → ℕ → Dialogue → IoRet × Dialogue
  unfolding emit send_to_write_out
  handle_in_dismiss_packet m h id dg =
      let ack = new_dismiss_ack_packet h.packet_id id none in
      let was_half = in_state dg dismiss_half in
      emit et_dismiss_recv dg refused (λ dg.
        if was_half
        then (io_closed, finish_closewait (send_to_write_out m ack io_closed dg).1)
        else let sent = spawn_send ack dg in
          (io_success, record sent { tasks = sent.tasks ++ close_async ∷ [] }))

  unfoldable pub handle_in_dismiss_ack_packet : Dialogue → IoRet × Dialogue
  unfolding emit
  handle_in_dismiss_ack_packet dg = emit et_dismiss_ack dg refused after_ack

  unfoldable pub handle_in_data_packet : Moment → Packet → Dialogue → IoRet × Dialogue
  handle_in_data_packet m p dg =
      if in_state dg sessioned
        || in_state dg dismiss_half
        || in_state dg dismiss_sent
        || in_state dg dismiss_recv
      then (if gives_up m dg
          then (io_discard, dg)
          else (io_success, record dg { read_out = dg.read_out ++ p ∷ [] }))
      else (io_discard, fail p dg)

  unfoldable pub handle_in : Moment → Packet → Dialogue → IoRet × Dialogue
  unfolding handle_in_session_packet handle_in_session_ack_packet handle_in_dismiss_packet
      handle_in_dismiss_ack_packet handle_in_data_packet
  handle_in m (session h f id d) dg = handle_in_session_packet h f id d dg
  handle_in m (session_ack h f negotiate_id id d) dg = handle_in_session_ack_packet h id d dg
  handle_in m (dismiss h id d) dg = handle_in_dismiss_packet m h id dg
  handle_in m (dismiss_ack h id d) dg = handle_in_dismiss_ack_packet dg
  handle_in m p dg = handle_in_data_packet m p dg

  unfoldable pub handle_out_session_packet : Moment → Packet → Dialogue → IoRet × Dialogue
  unfolding emit send_to_write_out
  handle_out_session_packet m p dg =
      emit et_session_sent dg refused (send_to_write_out m p io_success)

  -- The branch without an error of the delegate.
  unfoldable pub accept_session : Moment → Packet → Dialogue → IoRet × Dialogue
  unfolding emit send_to_write_out
  accept_session m p dg = emit et_session_ack dg refused (λ dg.
      if gives_up m dg
      then (io_closed, dg)
      else (io_new_passive, record dg { write_out = dg.write_out ++ p ∷ []; onlined = true }))

  -- The branch with one. The transition of ET_ERROR runs closeWrapper, which calls Close.
  unfoldable pub refuse_session : Moment → Packet → Dialogue → Handled
  unfolding close send_to_write_out
  refuse_session m p dg = elim (fsm.emit_event transitions et_error dg.state) [
    | none ↦ ok (refused dg)
    | some s ↦ close m (record dg { state = s }) >>= λ dg. ok (send_to_write_out m p io_success dg)
  ]

  unfoldable pub handle_out_session_ack_packet :
      Moment → PacketHeader → SessionFlags → ℕ → ℕ → SessionData → Dialogue → Handled
  unfolding accept_session refuse_session
  handle_out_session_ack_packet m h f negotiate_id id d dg =
      elim (if m.has_delegate then m.online_error else none) [
        | none ↦ ok (accept_session m (session_ack h f negotiate_id id d) dg)
        | some x ↦ refuse_session m (session_ack h f negotiate_id id (record d { error = x })) dg
      ]

  unfoldable pub handle_out_dismiss_packet : Moment → Packet → Dialogue → IoRet × Dialogue
  unfolding emit send_to_write_out
  handle_out_dismiss_packet m p dg =
      emit et_dismiss_sent dg refused (send_to_write_out m p io_success)

  unfoldable pub handle_out_dismiss_ack_packet : Moment → Packet → Dialogue → IoRet × Dialogue
  unfolding emit
  handle_out_dismiss_ack_packet m p dg = emit et_dismiss_ack dg refused (λ dg.
      if gives_up m dg
      then (io_closed, dg)
      else after_ack (record dg { write_out = dg.write_out ++ p ∷ [] }))

  unfoldable pub handle_out_data_packet : Moment → Packet → Dialogue → IoRet × Dialogue
  unfolding send_to_write_out
  handle_out_data_packet m p dg = send_to_write_out m p io_success dg

  unfoldable pub handle_out : Moment → Packet → Dialogue → Handled
  unfolding handle_out_session_packet handle_out_session_ack_packet handle_out_dismiss_packet
      handle_out_dismiss_ack_packet handle_out_data_packet
  handle_out m (session h f id d) dg = ok (handle_out_session_packet m (session h f id d) dg)
  handle_out m (session_ack h f negotiate_id id d) dg =
      handle_out_session_ack_packet m h f negotiate_id id d dg
  handle_out m (dismiss h id d) dg = ok (handle_out_dismiss_packet m (dismiss h id d) dg)
  handle_out m (dismiss_ack h id d) dg =
      ok (handle_out_dismiss_ack_packet m (dismiss_ack h id d) dg)
  handle_out m p dg = ok (handle_out_data_packet m p dg)
