-- ===== src/Packet/Factory/Calls.antt =====
-- The methods of the PacketFactory interface, as calls with their arguments.
use geminio.Common.{ℕ, Bool, List, Option, ok}
use geminio.IdCounter.{IdCounter}
use geminio.Packet.Factory.{
  Made, new_conn_packet, new_conn_ack_packet, new_dis_conn_packet, new_dis_conn_ack_packet,
  new_heartbeat_packet, new_heartbeat_ack_packet, new_session_packet, new_session_ack_packet,
  new_dismiss_packet, new_dismiss_ack_packet, new_message_packet,
  new_message_packet_with_id_and_session_id, new_message_packet_with_session_id,
  new_message_ack_packet, new_message_ack_packet_with_session_id, new_request_packet,
  new_request_cancel_packet_with_id_and_session_id, new_request_packet_with_id_and_session_id,
  new_response_packet, new_stream_packet, new_stream_packet_with_session_id, new_register_packet,
  new_register_packet_with_session_id, new_register_ack_packet,
  new_register_ack_packet_with_session_id,
}

-- One constructor for each method that makes a packet, with its parameters in their order.
pub data Call : Type 0 where
  for_conn : ℕ → Bool → ℕ → List ℕ → Call
  for_conn_ack : ℕ → ℕ → Option (List ℕ) → Call
  for_dis_conn : Call
  for_dis_conn_ack : ℕ → Option (List ℕ) → Call
  for_heartbeat : Call
  for_heartbeat_ack : ℕ → Call
  for_session : ℕ → Bool → List ℕ → List ℕ → Call
  for_session_ack : ℕ → ℕ → ℕ → Option (List ℕ) → Call
  for_dismiss : ℕ → Call
  for_dismiss_ack : ℕ → ℕ → Option (List ℕ) → Call
  for_message : List ℕ → List ℕ → Call
  for_message_of : ℕ → ℕ → List ℕ → List ℕ → Call
  for_message_in : ℕ → List ℕ → List ℕ → List ℕ → Call
  for_message_ack : ℕ → Option (List ℕ) → Call
  for_message_ack_in : ℕ → ℕ → Option (List ℕ) → Call
  for_request : List ℕ → List ℕ → Call
  for_request_cancel : ℕ → ℕ → ℕ → Call
  for_request_of : ℕ → ℕ → List ℕ → List ℕ → Call
  for_response : ℕ → List ℕ → List ℕ → Option (List ℕ) → Call
  for_stream : List ℕ → Call
  for_stream_in : ℕ → List ℕ → Call
  for_register : List ℕ → Call
  for_register_in : ℕ → List ℕ → Call
  for_register_ack : ℕ → Option (List ℕ) → Call
  for_register_ack_in : ℕ → ℕ → Option (List ℕ) → Call

-- The method's own function.
unfoldable pub make : ℕ → IdCounter → Call → Made
unfolding new_conn_packet new_conn_ack_packet new_dis_conn_packet new_dis_conn_ack_packet
    new_heartbeat_packet new_heartbeat_ack_packet new_session_packet new_session_ack_packet
    new_dismiss_packet new_dismiss_ack_packet new_message_packet
    new_message_packet_with_id_and_session_id new_message_packet_with_session_id
    new_message_ack_packet new_message_ack_packet_with_session_id new_request_packet
    new_request_cancel_packet_with_id_and_session_id new_request_packet_with_id_and_session_id
    new_response_packet new_stream_packet new_stream_packet_with_session_id new_register_packet
    new_register_packet_with_session_id new_register_ack_packet
    new_register_ack_packet_with_session_id
make u c (for_conn wanted acquire beat meta) = new_conn_packet u c wanted acquire beat meta
make u c (for_conn_ack id client_id e) = (ok (new_conn_ack_packet id client_id e), c)
make u c (for_dis_conn) = new_dis_conn_packet u c
make u c (for_dis_conn_ack id e) = (ok (new_dis_conn_ack_packet id e), c)
make u c (for_heartbeat) = new_heartbeat_packet u c
make u c (for_heartbeat_ack id) = (ok (new_heartbeat_ack_packet id), c)
make u c (for_session n acquire meta peer) = new_session_packet u c n acquire meta peer
make u c (for_session_ack id n s e) = (ok (new_session_ack_packet id n s e), c)
make u c (for_dismiss s) = new_dismiss_packet u c s
make u c (for_dismiss_ack id s e) = (ok (new_dismiss_ack_packet id s e), c)
make u c (for_message key value) = new_message_packet u c key value
make u c (for_message_of id s key value) =
    new_message_packet_with_id_and_session_id u c id s key value
make u c (for_message_in s key value custom) =
    new_message_packet_with_session_id u c s key value custom
make u c (for_message_ack id e) = (ok (new_message_ack_packet id e), c)
make u c (for_message_ack_in s id e) = (ok (new_message_ack_packet_with_session_id s id e), c)
make u c (for_request key value) = new_request_packet u c key value
make u c (for_request_cancel id s cancel_type) =
    (ok (new_request_cancel_packet_with_id_and_session_id id s cancel_type), c)
make u c (for_request_of id s key value) =
    new_request_packet_with_id_and_session_id u c id s key value
make u c (for_response id key value e) = (ok (new_response_packet id key value e), c)
make u c (for_stream bytes) = new_stream_packet u c bytes
make u c (for_stream_in s bytes) = new_stream_packet_with_session_id u c s bytes
make u c (for_register method) = new_register_packet u c method
make u c (for_register_in s method) = new_register_packet_with_session_id u c s method
make u c (for_register_ack id e) = (ok (new_register_ack_packet id e), c)
make u c (for_register_ack_in s id e) = (ok (new_register_ack_packet_with_session_id s id e), c)
