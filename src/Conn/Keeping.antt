-- ===== src/Conn/Keeping.antt =====
-- What the handlers of a connection leave as it is.
use geminio.Common.{ℕ, ◌≡◌, refl, Bool, arith, Outcome, Gives, inl, inr, ◌⊎◌}
use geminio.Packet.{Packet, PacketHeader, ConnFlags, ConnData}
use geminio.Packet.Factory.{new_dis_conn_packet, with_new_id}
use geminio.Conn.{Side, initiator_side, recipient_side, Fsm, IoRet, Moment, Conn}
use geminio.Conn.Base.{
  Handled, emit, fail, send_to_write_out, close, close_first, handle_in_dis_conn_packet,
  handle_in_dis_conn_ack_packet, handle_out_dis_conn_packet, handle_out_dis_conn_ack_packet,
  handle_out_data_packet,
}
use geminio.Conn.Client
use geminio.Conn.Server

pub Side-cases : (s : Side) → (s ≡ initiator_side) ⊎ (s ≡ recipient_side)
Side-cases initiator_side = inl refl
Side-cases recipient_side = inr refl

-- The fields that only writePkt and the loop's end set.
abbrev pub lasting : Conn → Bool × Bool × Bool × ℕ
lasting c = (c.finished, c.cancelled, c.conn_ok, c.offline_calls)

abbrev pub Keeps : Conn → Handled → Type 0
Keeps c = Gives (λ x. lasting x.1 ≡ lasting c)

abbrev pub KeepsConn : Conn → Outcome Conn → Type 0
KeepsConn c = Gives (λ x. lasting x ≡ lasting c)

pub fail-lasting : (p : Packet) (c : Conn) → lasting (fail p c) ≡ lasting c
unfolding fail
fail-lasting p c = ground arith

pub close-Keeps : (m : Moment) (c : Conn) → KeepsConn c (close m c)
unfolding close close_first new_dis_conn_packet with_new_id
close-Keeps m c = ground arith

send_to_write_out-Keeps :
    (m : Moment) (p : Packet) (ret : IoRet) (c : Conn) → Keeps c (send_to_write_out m p ret c)
unfolding send_to_write_out
send_to_write_out-Keeps m p ret c = ground arith

choose_client_id-Keeps :
    (m : Moment) (c : Conn) → Gives (λ x. lasting x.1 ≡ lasting c) (Server.choose_client_id m c)
unfolding Server.choose_client_id Server.draw_client_id
choose_client_id-Keeps m c = ground arith

bring_online-lasting :
    (m : Moment) (h : PacketHeader) (f : ConnFlags) (c : Conn)
    → lasting (Server.bring_online m h f c) ≡ lasting c
unfolding Server.bring_online Server.reset_heartbeat_timeout
bring_online-lasting m h f c = ground arith

conn_acked-Keeps :
    (m : Moment) (h : PacketHeader) (id : ℕ) (d : ConnData) (c : Conn)
    → Keeps c (Client.conn_acked m h id d c)
unfolding Client.conn_acked new_dis_conn_packet with_new_id
conn_acked-Keeps m h id d c = ground arith

pub client_data-Keeps :
    (m : Moment) (p : Packet) (c : Conn) → Keeps c (Client.handle_in_data_packet m p c)
unfolding Client.handle_in_data_packet
client_data-Keeps m p c = ground arith

pub heartbeat_ack-Keeps : (c : Conn) → Keeps c (Client.handle_in_heartbeat_ack_packet c)
unfolding Client.handle_in_heartbeat_ack_packet
heartbeat_ack-Keeps c = ground arith

pub out_heartbeat-Keeps :
    (m : Moment) (p : Packet) (c : Conn) → Keeps c (Client.handle_out_heartbeat_packet m p c)
unfolding Client.handle_out_heartbeat_packet send_to_write_out
out_heartbeat-Keeps m p c = ground arith

pub out_data-Keeps : (m : Moment) (p : Packet) (c : Conn) → Keeps c (handle_out_data_packet m p c)
unfolding handle_out_data_packet send_to_write_out
out_data-Keeps m p c = ground arith

module _ (fsm : Fsm) where
  pub heartbeat-Keeps :
      (m : Moment) (h : PacketHeader) (c : Conn)
      → Keeps c (Server.handle_in_heartbeat_packet fsm m h c)
  unfolding Server.handle_in_heartbeat_packet Server.reset_heartbeat_timeout
  heartbeat-Keeps m h c = ground arith

  pub server_data-Keeps :
      (m : Moment) (p : Packet) (c : Conn) → Keeps c (Server.handle_in_data_packet fsm m p c)
  unfolding Server.handle_in_data_packet Server.reset_heartbeat_timeout
  server_data-Keeps m p c = ground arith

  pub in_conn-Keeps :
      (m : Moment) (h : PacketHeader) (f : ConnFlags) (id : ℕ) (d : ConnData) (c : Conn)
      → Keeps c (Server.handle_in_conn_packet fsm m h f id d c)
  unfolding Server.handle_in_conn_packet emit Server.choose_client_id Server.draw_client_id
      Server.bring_online Server.reset_heartbeat_timeout
  in_conn-Keeps m h f id d c = ground arith

  pub in_dis_conn-Keeps :
      (m : Moment) (h : PacketHeader) (c : Conn) → Keeps c (handle_in_dis_conn_packet fsm m h c)
  unfolding handle_in_dis_conn_packet emit close close_first new_dis_conn_packet with_new_id
  in_dis_conn-Keeps m h c = ground arith

  pub in_dis_conn_ack-Keeps : (c : Conn) → Keeps c (handle_in_dis_conn_ack_packet fsm c)
  unfolding handle_in_dis_conn_ack_packet emit
  in_dis_conn_ack-Keeps c = ground arith

  pub out_dis_conn-Keeps :
      (m : Moment) (p : Packet) (c : Conn) → Keeps c (handle_out_dis_conn_packet fsm m p c)
  unfolding handle_out_dis_conn_packet emit send_to_write_out
  out_dis_conn-Keeps m p c = ground arith

  pub out_dis_conn_ack-Keeps :
      (m : Moment) (p : Packet) (c : Conn) → Keeps c (handle_out_dis_conn_ack_packet fsm m p c)
  unfolding handle_out_dis_conn_ack_packet emit
  out_dis_conn_ack-Keeps m p c = ground arith

  pub out_conn-Keeps :
      (m : Moment) (p : Packet) (c : Conn) → Keeps c (Client.handle_out_conn_packet fsm m p c)
  unfolding Client.handle_out_conn_packet emit send_to_write_out
  out_conn-Keeps m p c = ground arith

  pub in_conn_ack-Keeps :
      (m : Moment) (h : PacketHeader) (id : ℕ) (d : ConnData) (c : Conn)
      → Keeps c (Client.handle_in_conn_ack_packet fsm m h id d c)
  unfolding Client.handle_in_conn_ack_packet emit Client.conn_acked new_dis_conn_packet with_new_id
  in_conn_ack-Keeps m h id d c = ground arith

  pub out_conn_ack-Keeps :
      (m : Moment) (h : PacketHeader) (r id : ℕ) (d : ConnData) (c : Conn)
      → Keeps c (Server.handle_out_conn_ack_packet fsm m h r id d c)
  unfolding Server.handle_out_conn_ack_packet emit close close_first new_dis_conn_packet with_new_id
      send_to_write_out
  out_conn_ack-Keeps m h r id d c = ground arith
