-- ===== src/Conn/Server.antt =====
-- conn/conn_server.go: the handlers of the accepting side.
use geminio.Common.{
  ℕ, Bool, true, ◌+◌, ◌*◌, ◌==◌, ltb, List, [], ◌∷◌, ◌++◌, Option, none, some, Outcome, ok, panic,
  ◌>>=◌, if◌then◌else◌, length,
}
use geminio.IdCounter.{get_id}
use geminio.Packet.{
  Packet, PacketHeader, ConnFlags, ConnData, conn, conn_ack, dis_conn, dis_conn_ack, heartbeat,
}
use geminio.Packet.Factory.{new_conn_ack_packet, new_heartbeat_ack_packet}
use geminio.Conn.{
  conned, et_conn_recv, et_conn_ack, et_error, Fsm, io_success, io_closed, io_err, io_discard,
  of_addresses, hub_new, hub_ack, hub_error, Moment, Conn,
}
use geminio.Conn.Base.{
  Handled, gives_up, send_to_write_out, spawn_send, call_hub, in_state, fail, close, emit,
  handle_in_dis_conn_packet, handle_in_dis_conn_ack_packet, handle_out_dis_conn_packet,
  handle_out_dis_conn_ack_packet, handle_out_data_packet, heartbeat_size, refused,
}

-- resetHeartbeatTimeout, with the seconds until waitHBTimeout.
unfoldable pub reset_heartbeat_timeout : Conn → Conn
reset_heartbeat_timeout c = if c.conn_ok then record c { tick = some (c.heartbeat * 2) } else c

abbrev answer : PacketHeader → Option (List ℕ) → Conn → Conn
answer h e c = spawn_send (new_conn_ack_packet h.packet_id c.client_id e) c

-- GetIDByMeta of the shared counter, after the delegate gave 0 or is absent.
unfoldable pub draw_client_id : Moment → Conn → Outcome (Option (List ℕ) × Conn)
draw_client_id m c =
    let no_error : Option (List ℕ) = none in
    elim c.client_ids [
      | none ↦ panic
      | some ids ↦ (get_id m.unix ids).0 >>= λ i.
          ok (no_error, record c { client_id = i; client_ids = some (get_id m.unix ids).1 })
    ]

-- The client's identifier, from the delegate or else, without an error, from the shared counter.
unfoldable pub choose_client_id : Moment → Conn → Outcome (Option (List ℕ) × Conn)
unfolding draw_client_id
choose_client_id m c =
    let given = if m.has_delegate then record c { client_id = m.given_id } else c in
    let drawn = draw_client_id m given in
    elim (if m.has_delegate then m.given_error else none) [
      | some x ↦ ok (some x, given)
      | none ↦ if given.client_id == 0 then drawn else ok (none, given)
    ]

-- From the delegate's ConnOnline on.
unfoldable pub bring_online : Moment → PacketHeader → ConnFlags → Conn → Conn
unfolding reset_heartbeat_timeout
bring_online m h f c =
    let told = if m.has_delegate then record c { online_calls = c.online_calls + 1 } else c in
    elim (if m.has_delegate then m.online_error else none) [
      | some x ↦ answer h (some x) told
      | none ↦
          let woken = answer h none (call_hub (hub_ack of_addresses) told) in
          reset_heartbeat_timeout (record woken { heartbeat = f.heartbeat })
    ]

module _ (fsm : Fsm) where
  unfoldable pub handle_in_conn_packet :
      Moment → PacketHeader → ConnFlags → ℕ → ConnData → Conn → Handled
  unfolding emit choose_client_id bring_online
  handle_in_conn_packet m h f id d c =
      emit fsm et_conn_recv c (λ c. ok (io_err, call_hub (hub_error of_addresses) c))
        (λ c.
          let named = record c { meta = d.meta } in
          let chosen = choose_client_id m named >>= λ (e, c). ok (
            io_success,
            elim e as (λ x. Conn) [ some x ↦ answer h (some x) c | none ↦ bring_online m h f c ],
          ) in
          if f.client_id_acquire
          then chosen
          else ok (io_success, bring_online m h f (record named { client_id = id })))

  -- The answer takes the priority channel, or the other one when that is full.
  unfoldable pub handle_in_heartbeat_packet : Moment → PacketHeader → Conn → Handled
  unfolding reset_heartbeat_timeout
  handle_in_heartbeat_packet m h c =
      let ack = new_heartbeat_ack_packet h.packet_id in
      let alive = reset_heartbeat_timeout c in
      let calls = if m.has_delegate then c.heartbeat_calls + 1 else c.heartbeat_calls in
      if in_state c conned
      then ok (
        io_success,
        (if ltb (length c.heartbeat_out) heartbeat_size
            then record alive {
              heartbeat_out = c.heartbeat_out ++ ack ∷ [];
              heartbeat_calls = calls;
            }
            else record alive { write_out = c.write_out ++ ack ∷ []; heartbeat_calls = calls }),
      )
      else ok (io_discard, c)

  unfoldable pub handle_in_data_packet : Moment → Packet → Conn → Handled
  unfolding reset_heartbeat_timeout fail
  handle_in_data_packet m p c =
      let alive = reset_heartbeat_timeout c in
      let told = elim c.failed as (λ x. Conn) [
        | none ↦ c
        | some ps ↦ record c { failed = some (ps ++ p ∷ []) }
      ] in
      if in_state c conned
      then (if gives_up m c
          then ok (io_closed, alive)
          else ok (io_success, record alive { read_out = c.read_out ++ p ∷ [] }))
      else ok (io_discard, told)

  -- The transition of ET_ERROR runs closeWrapper, which calls Close.
  unfoldable pub handle_out_conn_ack_packet :
      Moment → PacketHeader → ℕ → ℕ → ConnData → Conn → Handled
  unfolding emit send_to_write_out close
  handle_out_conn_ack_packet m h ret_code id d c =
      let p = conn_ack h ret_code id d in
      let bad = emit fsm et_error c refused (λ c. close m c >>= send_to_write_out m p io_success) in
      let good = emit fsm et_conn_ack c refused (λ c.
        if gives_up m c
        then ok (io_closed, c)
        else ok (io_success, record c { write_out = c.write_out ++ p ∷ []; onlined = true })) in
      if ret_code == 0x01 then bad else good

  unfoldable pub handle_in : Moment → Packet → Conn → Handled
  unfolding handle_in_conn_packet handle_in_dis_conn_packet handle_in_dis_conn_ack_packet
      handle_in_heartbeat_packet handle_in_data_packet
  handle_in m (conn h f id d) c = handle_in_conn_packet m h f id d c
  handle_in m (dis_conn h) c = handle_in_dis_conn_packet fsm m h c
  handle_in m (dis_conn_ack h ret_code d) c = handle_in_dis_conn_ack_packet fsm c
  handle_in m (heartbeat h) c = handle_in_heartbeat_packet m h c
  handle_in m p c = handle_in_data_packet m p c

  unfoldable pub handle_out : Moment → Packet → Conn → Handled
  unfolding handle_out_conn_ack_packet handle_out_dis_conn_packet handle_out_dis_conn_ack_packet
      handle_out_data_packet
  handle_out m (conn_ack h ret_code id d) c = handle_out_conn_ack_packet m h ret_code id d c
  handle_out m (dis_conn h) c = handle_out_dis_conn_packet fsm m (dis_conn h) c
  handle_out m (dis_conn_ack h ret_code d) c =
      handle_out_dis_conn_ack_packet fsm m (dis_conn_ack h ret_code d) c
  handle_out m p c = handle_out_data_packet m p c

-- wait: the sync that it registers before the reader starts.
unfoldable pub wait : Conn → Conn
wait c = call_hub (hub_new of_addresses) c

-- waitHBTimeout, with whether the timer was closed or not started.
unfoldable pub wait_hb_timeout : Moment → Bool → Conn → Outcome Conn
unfolding close
wait_hb_timeout m stopped c = let closed = close m c in if stopped then ok c else closed
