-- ===== src/Conn/Base.antt =====
-- conn/conn_base.go: what both sides share.
use geminio.Common.{
  ℕ, Bool, true, false, ◌&&◌, ◌==◌, [], ◌∷◌, ◌++◌, Option, none, some, Outcome, ok, ◌>>=◌,
  if◌then◌else◌,
}
use geminio.Packet.{Packet, PacketHeader}
use geminio.Packet.Ids.{conn_layer}
use geminio.Packet.Factory.{new_dis_conn_packet, new_dis_conn_ack_packet}
use geminio.Conn.{
  Side, initiator_side, recipient_side, State, close_half, Event, et_close_sent, et_close_recv,
  et_close_ack, transitions, state_code, Fsm, IoRet, io_success, io_closed, io_err, io_discard,
  HubCall, Moment, Conn,
}

-- The capacity of heartbeatCh and of heartbeatWriteCh.
abbrev pub heartbeat_size : ℕ
heartbeat_size = 10

-- What a handler gives: its result and the connection, or a panic.
abbrev pub Handled : Type 0
Handled = Outcome (IoRet × Conn)

abbrev pub gives_up : Moment → Conn → Bool
gives_up m c = c.cancelled && m.takes_done

-- `select { case writeOutCh <- pkt: case <-ctx.Done(): return IOClosed }`
unfoldable pub send_to_write_out : Moment → Packet → IoRet → Conn → Handled
send_to_write_out m p ret c =
    if gives_up m c
    then ok (io_closed, c)
    else ok (ret, record c { write_out = c.write_out ++ p ∷ [] })

-- sendToWriteIn and Write, with whether they return io.EOF.
unfoldable pub send_to_write_in : Moment → Packet → Conn → Bool × Conn
send_to_write_in m p c =
    if gives_up m c then (true, c) else (false, record c { write_in = c.write_in ++ p ∷ [] })

unfoldable pub write : Moment → Packet → Conn → Bool × Conn
unfolding send_to_write_in
write m p c = if c.conn_ok then send_to_write_in m p c else (true, c)

-- `go func() { bc.sendToWriteIn(retPkt) }()`
abbrev pub spawn_send : Packet → Conn → Conn
spawn_send p c = record c { tasks = c.tasks ++ p ∷ [] }

abbrev pub call_hub : HubCall → Conn → Conn
call_hub call c = record c { hub = c.hub ++ call ∷ [] }

abbrev pub in_state : Conn → State → Bool
in_state c s = state_code c.state == state_code s

-- `if failedCh != nil { failedCh <- pkt }`, of a packet above the connection.
unfoldable pub fail : Packet → Conn → Conn
unfolding conn_layer
fail p c =
    let told = elim c.failed as (λ x. Conn) [
      | none ↦ c
      | some ps ↦ record c { failed = some (ps ++ p ∷ []) }
    ] in
    if conn_layer p then c else told

-- A client that ends cancels its heartbeats; a server's timeout goes on.
abbrev pub stopped_tick : Side → Option ℕ → Option ℕ
stopped_tick initiator_side tick = none
stopped_tick recipient_side tick = tick

-- The Close of either side.
unfoldable pub close_first : Moment → Conn → Outcome Conn
unfolding new_dis_conn_packet
close_first m c =
    let made = new_dis_conn_packet m.unix c.ids in
    let tick = stopped_tick c.side c.tick in
    let sent =
      made.0 >>= λ p. ok (spawn_send p (record c { closing = true; tick = tick; ids = made.1 })) in
    if c.conn_ok then sent else ok (record c { closing = true })

unfoldable pub close : Moment → Conn → Outcome Conn
unfolding close_first
close m c = if c.closing then ok c else close_first m c

-- The body of writePkt's two branches: the packet's bytes go to the net.Conn, or all ends.
unfoldable pub write_packet : Moment → Packet → Conn → Conn
unfolding fail
write_packet m p c =
    if m.write_ok
    then record c { wire = c.wire ++ p ∷ [] }
    else record (fail p c) { net_closed = true; cancelled = true; writing = false }

abbrev pub refused : Conn → Handled
refused c = ok (io_err, c)

abbrev pub after_ack : Conn → Handled
after_ack c = if in_state c close_half then ok (io_success, c) else ok (io_closed, c)

unfoldable pub handle_out_data_packet : Moment → Packet → Conn → Handled
unfolding send_to_write_out
handle_out_data_packet m p c =
    if c.conn_ok then send_to_write_out m p io_success c else ok (io_discard, c)

module _ (fsm : Fsm) where
  -- EmitEvent, and what follows.
  unfoldable pub emit : Event → Conn → (Conn → Handled) → (Conn → Handled) → Handled
  emit e c failure success = elim (fsm.emit_event (transitions c.side) e c.state) [
    | none ↦ failure c
    | some s ↦ success (record c { state = s })
  ]

  unfoldable pub handle_in_dis_conn_packet : Moment → PacketHeader → Conn → Handled
  unfolding emit close
  handle_in_dis_conn_packet m h c = emit et_close_recv c refused (λ c.
      close m (spawn_send (new_dis_conn_ack_packet h.packet_id none) c) >>= λ c. ok (io_success, c))

  unfoldable pub handle_in_dis_conn_ack_packet : Conn → Handled
  unfolding emit
  handle_in_dis_conn_ack_packet c = emit et_close_ack c refused after_ack

  unfoldable pub handle_out_dis_conn_packet : Moment → Packet → Conn → Handled
  unfolding emit send_to_write_out
  handle_out_dis_conn_packet m p c = emit et_close_sent c refused (send_to_write_out m p io_success)

  -- The acknowledgement goes to the net.Conn past writeOutCh.
  unfoldable pub handle_out_dis_conn_ack_packet : Moment → Packet → Conn → Handled
  unfolding emit
  handle_out_dis_conn_ack_packet m p c =
      emit et_close_ack c refused (λ c.
        if m.write_ok then after_ack (record c { wire = c.wire ++ p ∷ [] }) else ok (io_err, c))
