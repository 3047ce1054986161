-- ===== src/Conn/Client.antt =====
-- conn/conn_client.go: the handlers of the dialling side, its connect and its heartbeats.
use geminio.Common.{
  ℕ, Bool, true, false, ltb, List, [], ◌∷◌, ◌++◌, Option, none, some, Outcome, ok, ◌>>=◌,
  if◌then◌else◌, length,
}
use geminio.IdCounter.{IdCounter}
use geminio.Packet.{
  Packet, PacketHeader, ConnData, conn, conn_ack, dis_conn, dis_conn_ack, heartbeat, heartbeat_ack,
}
use geminio.Packet.Ids.{packet_id}
use geminio.Packet.Factory.{new_conn_packet, new_heartbeat_packet, new_dis_conn_packet}
use geminio.Conn.{
  Side, initiator_side, init, conned, et_conn_sent, et_conn_ack, Fsm, io_success, io_closed, io_err,
  io_discard, of_packet, hub_new, hub_done, hub_error, Moment, Conn,
}
use geminio.Conn.Base.{
  Handled, heartbeat_size, gives_up, send_to_write_out, send_to_write_in, spawn_send, call_hub,
  in_state, emit, handle_in_dis_conn_packet, handle_in_dis_conn_ack_packet,
  handle_out_dis_conn_packet, handle_out_dis_conn_ack_packet, handle_out_data_packet,
}

-- packet.Heartbeat20
abbrev pub heartbeat_20 : ℕ
heartbeat_20 = 20

-- The fields that both constructors give a connection, with the packet factory's counter, the
-- shared counter, the client's identifier, the heartbeat, the meta, the tick and failedCh.
unfoldable pub new_conn :
    Side → IdCounter → Option IdCounter → ℕ → ℕ → List ℕ → Option ℕ → Option (List Packet) → Conn
new_conn side ids client_ids client_id beat meta tick failed = record {
  side = side;
  state = init;
  ids = ids;
  client_ids = client_ids;
  client_id = client_id;
  heartbeat = beat;
  meta = meta;
  onlined = false;
  conn_ok = true;
  cancelled = false;
  net_closed = false;
  writing = true;
  read_closed = false;
  closing = false;
  finished = false;
  tick = tick;
  heartbeat_in = [];
  heartbeat_out = [];
  read_in = [];
  write_out = [];
  read_out = [];
  write_in = [];
  wire = [];
  failed = failed;
  tasks = [];
  hub = [];
  online_calls = 0;
  offline_calls = 0;
  heartbeat_calls = 0;
}

-- newClientConn with the options for the identifier and the meta, up to connect. The heartbeat ticks;
-- a client has no failedCh.
unfoldable pub new_client_conn : IdCounter → ℕ → List ℕ → Conn
unfolding new_conn
new_client_conn ids client_id meta =
    new_conn initiator_side ids none client_id heartbeat_20 meta (some heartbeat_20) none

-- connect, up to its wait for the sync; with whether the packet was not sent.
unfoldable pub connect : Moment → Conn → Outcome (Bool × Conn)
unfolding new_conn_packet packet_id send_to_write_in
connect m c =
    let made = new_conn_packet m.unix c.ids c.client_id true c.heartbeat c.meta in
    made.0 >>= λ p. ok (
      send_to_write_in m p
        (call_hub (hub_new (of_packet (packet_id p))) (record c { ids = made.1 })))

-- The tick's handler.
unfoldable pub send_heartbeat : Moment → Conn → Outcome Conn
unfolding new_heartbeat_packet send_to_write_in
send_heartbeat m c =
    let made = new_heartbeat_packet m.unix c.ids in
    let sent = made.0 >>= λ p. ok (send_to_write_in m p (record c { ids = made.1 })).1 in
    if c.conn_ok then sent else ok c

-- What follows a successful ET_CONNACK. A refusal is answered with a DisConnPacket.
unfoldable pub conn_acked : Moment → PacketHeader → ℕ → ConnData → Conn → Handled
unfolding new_dis_conn_packet
conn_acked m h id d c =
    let named = record c { client_id = id } in
    let made = new_dis_conn_packet m.unix c.ids in
    elim d.error as (λ x. Handled) [
      | [] ↦ ok (
        io_success,
        record (call_hub (hub_done (of_packet h.packet_id)) named) { onlined = true },
      )
      | x ∷ xs ↦ made.0 >>= λ p.
          let told = call_hub (hub_error (of_packet h.packet_id)) named in
          ok (io_success, spawn_send p (record told { ids = made.1 }))
    ]

unfoldable pub handle_in_heartbeat_ack_packet : Conn → Handled
handle_in_heartbeat_ack_packet c = if in_state c conned then ok (io_success, c) else ok (io_err, c)

unfoldable pub handle_in_data_packet : Moment → Packet → Conn → Handled
handle_in_data_packet m p c =
    if in_state c conned
    then (if gives_up m c
        then ok (io_closed, c)
        else ok (io_success, record c { read_out = c.read_out ++ p ∷ [] }))
    else ok (io_discard, c)

-- The heartbeat takes the priority channel, or the other one when that is full.
unfoldable pub handle_out_heartbeat_packet : Moment → Packet → Conn → Handled
unfolding send_to_write_out
handle_out_heartbeat_packet m p c =
    if ltb (length c.heartbeat_out) heartbeat_size
    then ok (io_success, record c { heartbeat_out = c.heartbeat_out ++ p ∷ [] })
    else send_to_write_out m p io_success c

module _ (fsm : Fsm) where
  unfoldable pub handle_in_conn_ack_packet : Moment → PacketHeader → ℕ → ConnData → Conn → Handled
  unfolding emit conn_acked
  handle_in_conn_ack_packet m h id d c =
      emit fsm et_conn_ack c (λ c. ok (io_err, call_hub (hub_error (of_packet h.packet_id)) c))
        (conn_acked m h id d)

  unfoldable pub handle_out_conn_packet : Moment → Packet → Conn → Handled
  unfolding emit send_to_write_out packet_id
  handle_out_conn_packet m p c =
      emit fsm et_conn_sent c (λ c. ok (io_err, call_hub (hub_error (of_packet (packet_id p))) c))
        (send_to_write_out m p io_success)

  unfoldable pub handle_in : Moment → Packet → Conn → Handled
  unfolding handle_in_conn_ack_packet handle_in_dis_conn_packet handle_in_dis_conn_ack_packet
      handle_in_heartbeat_ack_packet handle_in_data_packet
  handle_in m (conn_ack h ret_code id d) c = handle_in_conn_ack_packet m h id d c
  handle_in m (dis_conn h) c = handle_in_dis_conn_packet fsm m h c
  handle_in m (dis_conn_ack h ret_code d) c = handle_in_dis_conn_ack_packet fsm c
  handle_in m (heartbeat_ack h) c = handle_in_heartbeat_ack_packet c
  handle_in m p c = handle_in_data_packet m p c

  unfoldable pub handle_out : Moment → Packet → Conn → Handled
  unfolding handle_out_conn_packet handle_out_dis_conn_packet handle_out_dis_conn_ack_packet
      handle_out_heartbeat_packet handle_out_data_packet
  handle_out m (conn h f id d) c = handle_out_conn_packet m (conn h f id d) c
  handle_out m (dis_conn h) c = handle_out_dis_conn_packet fsm m (dis_conn h) c
  handle_out m (dis_conn_ack h ret_code d) c =
      handle_out_dis_conn_ack_packet fsm m (dis_conn_ack h ret_code d) c
  handle_out m (heartbeat h) c = handle_out_heartbeat_packet m (heartbeat h) c
  handle_out m p c = handle_out_data_packet m p c
