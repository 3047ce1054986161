-- ===== src/Dialogue/Single.antt =====
-- closeOnce: no handler makes a dismissal of its own.
use geminio.Common.{
  Gives, bind-Gives, ℕ, refl, arith, [], ◌∷◌, ◌++◌, none, Option-cases, inl, inr, if◌then◌else◌,
}
use geminio.Packet.{
  Packet, PacketHeader, SessionFlags, SessionData, conn, conn_ack, dis_conn, dis_conn_ack,
  heartbeat, heartbeat_ack, session, session_ack, dismiss, dismiss_ack, message, message_ack,
  stream, request, response, request_cancel, register, register_ack,
}
use geminio.Packet.Factory.{new_session_ack_packet, new_dismiss_ack_packet}
use geminio.Dialogue.{
  transitions, Fsm, io_closed, io_success, send_in, close_async, Moment, Dialogue, et_session_recv,
  et_session_ack, et_session_sent, et_dismiss_sent, et_error, et_dismiss_ack, et_dismiss_recv,
}
use geminio.Dialogue.Closing.{close}
use geminio.Dialogue.Handlers.{
  emit, send_to_write_out, handle_in, handle_out, handle_in_data_packet, handle_in_session_packet,
  handle_in_session_ack_packet, handle_in_dismiss_packet, handle_in_dismiss_ack_packet,
  handle_out_session_packet, handle_out_session_ack_packet, handle_out_dismiss_packet,
  handle_out_dismiss_ack_packet, handle_out_data_packet, accept_session, refuse_session,
}
use geminio.Dialogue.Dismissals.{
  is_dismissal, Sends, Adds-Sends, Sends-Adds, close-Sends, count-append, count_tasks-append, Adds,
  send_to_write_out-Adds, finish_closewait-Adds, after_ack-Adds, fail-Adds,
}

module _ (fsm : Fsm) where
  handle_in_data_packet-Adds :
      (m : Moment) (p : Packet) (dg : Dialogue) → Adds 0 dg (handle_in_data_packet fsm m p dg).1
  unfolding handle_in_data_packet
  handle_in_data_packet-Adds m p dg = ground (arith, fail-Adds p dg)

  handle_in_session_packet-Adds :
      (h : PacketHeader) (f : SessionFlags) (id : ℕ) (d : SessionData) (dg : Dialogue)
      → Adds 0 dg (handle_in_session_packet fsm h f id d dg).1
  unfolding handle_in_session_packet emit new_session_ack_packet
  handle_in_session_packet-Adds h f id d dg =
      elim (Option-cases (fsm.emit_event transitions et_session_recv dg.state)) [
        | inl q ↦ rw (q, emit) (omega arith, refl)
        | inr (s, q) ↦
            rw (q, emit)
              (
                omega (
                  arith,
                  count_tasks-append dg.tasks (
                      send_in (
                        new_session_ack_packet h.packet_id id
                          (if f.session_id_acquire then dg.negotiating_id else id) none)
                      ∷ []),
                ),
                refl,
              )
      ]

  handle_in_session_ack_packet-Adds :
      (h : PacketHeader) (id : ℕ) (d : SessionData) (dg : Dialogue)
      → Adds 0 dg (handle_in_session_ack_packet fsm h id d dg).1
  unfolding handle_in_session_ack_packet emit
  handle_in_session_ack_packet-Adds h id d dg =
      elim (Option-cases (fsm.emit_event transitions et_session_ack dg.state)) [
        | inl q ↦ rw (q, emit) (omega arith, refl)
        | inr (s, q) ↦ rw (q, emit) (omega arith, refl)
      ]

  handle_in_dismiss_packet-Adds :
      (m : Moment) (h : PacketHeader) (id : ℕ) (dg : Dialogue)
      → Adds 0 dg (handle_in_dismiss_packet fsm m h id dg).1
  unfolding handle_in_dismiss_packet emit new_dismiss_ack_packet
  handle_in_dismiss_packet-Adds m h id dg =
      elim (Option-cases (fsm.emit_event transitions et_dismiss_recv dg.state)) [
        | inl q ↦ rw (q, emit) (omega arith, refl)
        | inr (s, q) ↦
            rw (q, emit)
              (let ack = new_dismiss_ack_packet h.packet_id id none in
                ground (
                  arith,
                  send_to_write_out-Adds m ack io_closed (record dg { state = s }),
                  finish_closewait-Adds
                      (send_to_write_out m ack io_closed (record dg { state = s })).1,
                  count_tasks-append dg.tasks (send_in ack ∷ []),
                  count_tasks-append (dg.tasks ++ send_in ack ∷ []) (close_async ∷ []),
                ))
      ]

  handle_in_dismiss_ack_packet-Adds :
      (dg : Dialogue) → Adds 0 dg (handle_in_dismiss_ack_packet fsm dg).1
  unfolding handle_in_dismiss_ack_packet emit
  handle_in_dismiss_ack_packet-Adds dg =
      elim (Option-cases (fsm.emit_event transitions et_dismiss_ack dg.state)) [
        | inl q ↦ rw (q, emit) (omega arith, refl)
        | inr (s, q) ↦ rw (q, emit) (after_ack-Adds (record dg { state = s }))
      ]

  handle_out_session_packet-Adds :
      (m : Moment) (p : Packet) (dg : Dialogue)
      → Adds (is_dismissal p) dg (handle_out_session_packet fsm m p dg).1
  unfolding handle_out_session_packet emit
  handle_out_session_packet-Adds m p dg =
      elim (Option-cases (fsm.emit_event transitions et_session_sent dg.state)) [
        | inl q ↦ rw (q, emit) (omega arith, refl)
        | inr (s, q) ↦
            rw (q, emit) (send_to_write_out-Adds m p io_success (record dg { state = s }))
      ]

  handle_out_dismiss_packet-Adds :
      (m : Moment) (p : Packet) (dg : Dialogue)
      → Adds (is_dismissal p) dg (handle_out_dismiss_packet fsm m p dg).1
  unfolding handle_out_dismiss_packet emit
  handle_out_dismiss_packet-Adds m p dg =
      elim (Option-cases (fsm.emit_event transitions et_dismiss_sent dg.state)) [
        | inl q ↦ rw (q, emit) (omega arith, refl)
        | inr (s, q) ↦
            rw (q, emit) (send_to_write_out-Adds m p io_success (record dg { state = s }))
      ]

  accept_session-Adds :
      (m : Moment) (p : Packet) (dg : Dialogue)
      → Adds (is_dismissal p) dg (accept_session fsm m p dg).1
  unfolding accept_session emit
  accept_session-Adds m p dg =
      elim (Option-cases (fsm.emit_event transitions et_session_ack dg.state)) [
        | inl q ↦ rw (q, emit) (omega arith, refl)
        | inr (s, q) ↦ rw (q, emit) (ground (arith, count-append dg.write_out (p ∷ [])))
      ]

  refuse_session-Sends :
      (m : Moment) (p : Packet) (dg : Dialogue)
      → Gives (λ x. Sends (is_dismissal p) dg x.1) (refuse_session fsm m p dg)
  unfolding refuse_session
  refuse_session-Sends m p dg = elim (Option-cases (fsm.emit_event transitions et_error dg.state)) [
    | inl q ↦ rw (q, refuse_session) (omega arith, refl)
    | inr (s, q) ↦
        let b = record dg { state = s } in
        rw (q, refuse_session)
          (bind-Gives (Sends 0 dg) (λ x. Sends (is_dismissal p) dg x.1) (close m b) _
            (close-Sends m b)
            (λ c j.
              Sends-Adds (is_dismissal p) dg c (send_to_write_out m p io_success c).1 j
                (send_to_write_out-Adds m p io_success c)))
  ]

  handle_out_dismiss_ack_packet-Adds :
      (m : Moment) (p : Packet) (dg : Dialogue)
      → Adds (is_dismissal p) dg (handle_out_dismiss_ack_packet fsm m p dg).1
  unfolding handle_out_dismiss_ack_packet emit
  handle_out_dismiss_ack_packet-Adds m p dg =
      elim (Option-cases (fsm.emit_event transitions et_dismiss_ack dg.state)) [
        | inl q ↦ rw (q, emit) (omega arith, refl)
        | inr (s, q) ↦
            rw (q, emit)
              (let sent = record dg { state = s; write_out = dg.write_out ++ p ∷ [] } in
                ground (arith, after_ack-Adds sent, count-append dg.write_out (p ∷ [])))
      ]

  handle_out_session_ack_packet-Sends :
      (m : Moment) (h : PacketHeader) (f : SessionFlags) (n id : ℕ) (d : SessionData)
      (dg : Dialogue)
      → Gives (λ x. Sends 0 dg x.1) (handle_out_session_ack_packet fsm m h f n id d dg)
  unfolding handle_out_session_ack_packet
  handle_out_session_ack_packet-Sends m h f n id d dg =
      elim (Option-cases (if m.has_delegate then m.online_error else none)) [
        | inl q ↦
            let p = session_ack h f n id d in
            rw (q, handle_out_session_ack_packet)
              (Adds-Sends 0 dg (accept_session fsm m p dg).1 (accept_session-Adds m p dg))
        | inr (x, q) ↦
            rw (q, handle_out_session_ack_packet)
              (refuse_session-Sends m (session_ack h f n id (record d { error = x })) dg)
      ]

  pub handle_in-Adds :
      (m : Moment) (p : Packet) (dg : Dialogue) → Adds 0 dg (handle_in fsm m p dg).1
  unfolding handle_in
  handle_in-Adds m (session h f id d) dg = handle_in_session_packet-Adds h f id d dg
  handle_in-Adds m (session_ack h f n id d) dg = handle_in_session_ack_packet-Adds h id d dg
  handle_in-Adds m (dismiss h id d) dg = handle_in_dismiss_packet-Adds m h id dg
  handle_in-Adds m (dismiss_ack h id d) dg = handle_in_dismiss_ack_packet-Adds dg
  handle_in-Adds m (conn h f id d) dg = handle_in_data_packet-Adds m (conn h f id d) dg
  handle_in-Adds m (conn_ack h r id d) dg = handle_in_data_packet-Adds m (conn_ack h r id d) dg
  handle_in-Adds m (dis_conn h) dg = handle_in_data_packet-Adds m (dis_conn h) dg
  handle_in-Adds m (dis_conn_ack h r d) dg = handle_in_data_packet-Adds m (dis_conn_ack h r d) dg
  handle_in-Adds m (heartbeat h) dg = handle_in_data_packet-Adds m (heartbeat h) dg
  handle_in-Adds m (heartbeat_ack h) dg = handle_in_data_packet-Adds m (heartbeat_ack h) dg
  handle_in-Adds m (message h id d) dg = handle_in_data_packet-Adds m (message h id d) dg
  handle_in-Adds m (message_ack h id d) dg = handle_in_data_packet-Adds m (message_ack h id d) dg
  handle_in-Adds m (stream h id bs) dg = handle_in_data_packet-Adds m (stream h id bs) dg
  handle_in-Adds m (request h id d) dg = handle_in_data_packet-Adds m (request h id d) dg
  handle_in-Adds m (response h id d) dg = handle_in_data_packet-Adds m (response h id d) dg
  handle_in-Adds m (request_cancel h id t) dg =
      handle_in_data_packet-Adds m (request_cancel h id t) dg
  handle_in-Adds m (register h id b) dg = handle_in_data_packet-Adds m (register h id b) dg
  handle_in-Adds m (register_ack h id d) dg = handle_in_data_packet-Adds m (register_ack h id d) dg

  handle_out_data_packet-Sends :
      (m : Moment) (p : Packet) (dg : Dialogue)
      → Sends (is_dismissal p) dg (handle_out_data_packet fsm m p dg).1
  unfolding handle_out_data_packet
  handle_out_data_packet-Sends m p dg =
      Adds-Sends (is_dismissal p) dg (send_to_write_out m p io_success dg).1
        (send_to_write_out-Adds m p io_success dg)

  pub handle_out-Sends :
      (m : Moment) (p : Packet) (dg : Dialogue)
      → Gives (λ x. Sends (is_dismissal p) dg x.1) (handle_out fsm m p dg)
  unfolding handle_out
  handle_out-Sends m (session h f id d) dg =
      Adds-Sends 0 dg (handle_out_session_packet fsm m (session h f id d) dg).1
        (handle_out_session_packet-Adds m (session h f id d) dg)
  handle_out-Sends m (session_ack h f n id d) dg =
      handle_out_session_ack_packet-Sends m h f n id d dg
  handle_out-Sends m (dismiss h id d) dg =
      Adds-Sends 1 dg (handle_out_dismiss_packet fsm m (dismiss h id d) dg).1
        (handle_out_dismiss_packet-Adds m (dismiss h id d) dg)
  handle_out-Sends m (dismiss_ack h id d) dg =
      Adds-Sends 0 dg (handle_out_dismiss_ack_packet fsm m (dismiss_ack h id d) dg).1
        (handle_out_dismiss_ack_packet-Adds m (dismiss_ack h id d) dg)
  handle_out-Sends m (conn h f id d) dg = handle_out_data_packet-Sends m (conn h f id d) dg
  handle_out-Sends m (conn_ack h r id d) dg = handle_out_data_packet-Sends m (conn_ack h r id d) dg
  handle_out-Sends m (dis_conn h) dg = handle_out_data_packet-Sends m (dis_conn h) dg
  handle_out-Sends m (dis_conn_ack h r d) dg =
      handle_out_data_packet-Sends m (dis_conn_ack h r d) dg
  handle_out-Sends m (heartbeat h) dg = handle_out_data_packet-Sends m (heartbeat h) dg
  handle_out-Sends m (heartbeat_ack h) dg = handle_out_data_packet-Sends m (heartbeat_ack h) dg
  handle_out-Sends m (message h id d) dg = handle_out_data_packet-Sends m (message h id d) dg
  handle_out-Sends m (message_ack h id d) dg =
      handle_out_data_packet-Sends m (message_ack h id d) dg
  handle_out-Sends m (stream h id bs) dg = handle_out_data_packet-Sends m (stream h id bs) dg
  handle_out-Sends m (request h id d) dg = handle_out_data_packet-Sends m (request h id d) dg
  handle_out-Sends m (response h id d) dg = handle_out_data_packet-Sends m (response h id d) dg
  handle_out-Sends m (request_cancel h id t) dg =
      handle_out_data_packet-Sends m (request_cancel h id t) dg
  handle_out-Sends m (register h id b) dg = handle_out_data_packet-Sends m (register h id b) dg
  handle_out-Sends m (register_ack h id d) dg =
      handle_out_data_packet-Sends m (register_ack h id d) dg
