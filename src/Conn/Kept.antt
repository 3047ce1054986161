-- ===== src/Conn/Kept.antt =====
-- What the two sides' handleIn and handleOut leave as it is.
use geminio.Packet.{
  Packet, conn, conn_ack, dis_conn, dis_conn_ack, heartbeat, heartbeat_ack, session, session_ack,
  dismiss, dismiss_ack, message, message_ack, stream, request, response, request_cancel, register,
  register_ack,
}
use geminio.Conn.{Fsm, Moment, Conn}
use geminio.Common.{inl, inr}
use geminio.Conn.Client
use geminio.Conn.Server
use geminio.Conn.Loop.{handle_in, handle_out}
use geminio.Conn.Keeping.{
  Keeps, Side-cases, heartbeat-Keeps, server_data-Keeps, client_data-Keeps, heartbeat_ack-Keeps,
  out_heartbeat-Keeps, out_data-Keeps, in_conn-Keeps, in_dis_conn-Keeps, in_dis_conn_ack-Keeps,
  out_dis_conn-Keeps, out_dis_conn_ack-Keeps, out_conn-Keeps, in_conn_ack-Keeps, out_conn_ack-Keeps,
}

module _ (fsm : Fsm) where
  client_in-Keeps : (m : Moment) (p : Packet) (c : Conn) → Keeps c (Client.handle_in fsm m p c)
  unfolding Client.handle_in
  client_in-Keeps m (conn h f id d) c = client_data-Keeps m (conn h f id d) c
  client_in-Keeps m (conn_ack h r id d) c = in_conn_ack-Keeps fsm m h id d c
  client_in-Keeps m (dis_conn h) c = in_dis_conn-Keeps fsm m h c
  client_in-Keeps m (dis_conn_ack h r d) c = in_dis_conn_ack-Keeps fsm c
  client_in-Keeps m (heartbeat h) c = client_data-Keeps m (heartbeat h) c
  client_in-Keeps m (heartbeat_ack h) c = heartbeat_ack-Keeps c
  client_in-Keeps m (session h f id d) c = client_data-Keeps m (session h f id d) c
  client_in-Keeps m (session_ack h f n id d) c = client_data-Keeps m (session_ack h f n id d) c
  client_in-Keeps m (dismiss h id d) c = client_data-Keeps m (dismiss h id d) c
  client_in-Keeps m (dismiss_ack h id d) c = client_data-Keeps m (dismiss_ack h id d) c
  client_in-Keeps m (message h id d) c = client_data-Keeps m (message h id d) c
  client_in-Keeps m (message_ack h id d) c = client_data-Keeps m (message_ack h id d) c
  client_in-Keeps m (stream h id bs) c = client_data-Keeps m (stream h id bs) c
  client_in-Keeps m (request h id d) c = client_data-Keeps m (request h id d) c
  client_in-Keeps m (response h id d) c = client_data-Keeps m (response h id d) c
  client_in-Keeps m (request_cancel h id t) c = client_data-Keeps m (request_cancel h id t) c
  client_in-Keeps m (register h id d) c = client_data-Keeps m (register h id d) c
  client_in-Keeps m (register_ack h id d) c = client_data-Keeps m (register_ack h id d) c

  client_out-Keeps : (m : Moment) (p : Packet) (c : Conn) → Keeps c (Client.handle_out fsm m p c)
  unfolding Client.handle_out
  client_out-Keeps m (conn h f id d) c = out_conn-Keeps fsm m (conn h f id d) c
  client_out-Keeps m (conn_ack h r id d) c = out_data-Keeps m (conn_ack h r id d) c
  client_out-Keeps m (dis_conn h) c = out_dis_conn-Keeps fsm m (dis_conn h) c
  client_out-Keeps m (dis_conn_ack h r d) c = out_dis_conn_ack-Keeps fsm m (dis_conn_ack h r d) c
  client_out-Keeps m (heartbeat h) c = out_heartbeat-Keeps m (heartbeat h) c
  client_out-Keeps m (heartbeat_ack h) c = out_data-Keeps m (heartbeat_ack h) c
  client_out-Keeps m (session h f id d) c = out_data-Keeps m (session h f id d) c
  client_out-Keeps m (session_ack h f n id d) c = out_data-Keeps m (session_ack h f n id d) c
  client_out-Keeps m (dismiss h id d) c = out_data-Keeps m (dismiss h id d) c
  client_out-Keeps m (dismiss_ack h id d) c = out_data-Keeps m (dismiss_ack h id d) c
  client_out-Keeps m (message h id d) c = out_data-Keeps m (message h id d) c
  client_out-Keeps m (message_ack h id d) c = out_data-Keeps m (message_ack h id d) c
  client_out-Keeps m (stream h id bs) c = out_data-Keeps m (stream h id bs) c
  client_out-Keeps m (request h id d) c = out_data-Keeps m (request h id d) c
  client_out-Keeps m (response h id d) c = out_data-Keeps m (response h id d) c
  client_out-Keeps m (request_cancel h id t) c = out_data-Keeps m (request_cancel h id t) c
  client_out-Keeps m (register h id d) c = out_data-Keeps m (register h id d) c
  client_out-Keeps m (register_ack h id d) c = out_data-Keeps m (register_ack h id d) c

  server_in-Keeps : (m : Moment) (p : Packet) (c : Conn) → Keeps c (Server.handle_in fsm m p c)
  unfolding Server.handle_in
  server_in-Keeps m (conn h f id d) c = in_conn-Keeps fsm m h f id d c
  server_in-Keeps m (conn_ack h r id d) c = server_data-Keeps fsm m (conn_ack h r id d) c
  server_in-Keeps m (dis_conn h) c = in_dis_conn-Keeps fsm m h c
  server_in-Keeps m (dis_conn_ack h r d) c = in_dis_conn_ack-Keeps fsm c
  server_in-Keeps m (heartbeat h) c = heartbeat-Keeps fsm m h c
  server_in-Keeps m (heartbeat_ack h) c = server_data-Keeps fsm m (heartbeat_ack h) c
  server_in-Keeps m (session h f id d) c = server_data-Keeps fsm m (session h f id d) c
  server_in-Keeps m (session_ack h f n id d) c = server_data-Keeps fsm m (session_ack h f n id d) c
  server_in-Keeps m (dismiss h id d) c = server_data-Keeps fsm m (dismiss h id d) c
  server_in-Keeps m (dismiss_ack h id d) c = server_data-Keeps fsm m (dismiss_ack h id d) c
  server_in-Keeps m (message h id d) c = server_data-Keeps fsm m (message h id d) c
  server_in-Keeps m (message_ack h id d) c = server_data-Keeps fsm m (message_ack h id d) c
  server_in-Keeps m (stream h id bs) c = server_data-Keeps fsm m (stream h id bs) c
  server_in-Keeps m (request h id d) c = server_data-Keeps fsm m (request h id d) c
  server_in-Keeps m (response h id d) c = server_data-Keeps fsm m (response h id d) c
  server_in-Keeps m (request_cancel h id t) c = server_data-Keeps fsm m (request_cancel h id t) c
  server_in-Keeps m (register h id d) c = server_data-Keeps fsm m (register h id d) c
  server_in-Keeps m (register_ack h id d) c = server_data-Keeps fsm m (register_ack h id d) c

  server_out-Keeps : (m : Moment) (p : Packet) (c : Conn) → Keeps c (Server.handle_out fsm m p c)
  unfolding Server.handle_out
  server_out-Keeps m (conn h f id d) c = out_data-Keeps m (conn h f id d) c
  server_out-Keeps m (conn_ack h r id d) c = out_conn_ack-Keeps fsm m h r id d c
  server_out-Keeps m (dis_conn h) c = out_dis_conn-Keeps fsm m (dis_conn h) c
  server_out-Keeps m (dis_conn_ack h r d) c = out_dis_conn_ack-Keeps fsm m (dis_conn_ack h r d) c
  server_out-Keeps m (heartbeat h) c = out_data-Keeps m (heartbeat h) c
  server_out-Keeps m (heartbeat_ack h) c = out_data-Keeps m (heartbeat_ack h) c
  server_out-Keeps m (session h f id d) c = out_data-Keeps m (session h f id d) c
  server_out-Keeps m (session_ack h f n id d) c = out_data-Keeps m (session_ack h f n id d) c
  server_out-Keeps m (dismiss h id d) c = out_data-Keeps m (dismiss h id d) c
  server_out-Keeps m (dismiss_ack h id d) c = out_data-Keeps m (dismiss_ack h id d) c
  server_out-Keeps m (message h id d) c = out_data-Keeps m (message h id d) c
  server_out-Keeps m (message_ack h id d) c = out_data-Keeps m (message_ack h id d) c
  server_out-Keeps m (stream h id bs) c = out_data-Keeps m (stream h id bs) c
  server_out-Keeps m (request h id d) c = out_data-Keeps m (request h id d) c
  server_out-Keeps m (response h id d) c = out_data-Keeps m (response h id d) c
  server_out-Keeps m (request_cancel h id t) c = out_data-Keeps m (request_cancel h id t) c
  server_out-Keeps m (register h id d) c = out_data-Keeps m (register h id d) c
  server_out-Keeps m (register_ack h id d) c = out_data-Keeps m (register_ack h id d) c

  pub handle_in-Keeps : (m : Moment) (p : Packet) (c : Conn) → Keeps c (handle_in fsm m p c)
  unfolding handle_in
  handle_in-Keeps m p c = elim (Side-cases c.side) [
    | inl e ↦ rw (e, handle_in) (client_in-Keeps m p c)
    | inr e ↦ rw (e, handle_in) (server_in-Keeps m p c)
  ]

  pub handle_out-Keeps : (m : Moment) (p : Packet) (c : Conn) → Keeps c (handle_out fsm m p c)
  unfolding handle_out
  handle_out-Keeps m p c = elim (Side-cases c.side) [
    | inl e ↦ rw (e, handle_out) (client_out-Keeps m p c)
    | inr e ↦ rw (e, handle_out) (server_out-Keeps m p c)
  ]
