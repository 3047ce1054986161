-- ===== src/Packet/Factory.antt =====
-- packet/factory.go: the packets that a factory makes, over its identifier counter. An `error`
-- argument is an Option of its text; the time is that of the call.
pub mod Calls
pub mod Products
mod Examples
use geminio.Common.{ℕ, Bool, true, false, List, [], Option, none, some, Outcome, ok, ◌>>=◌}
use geminio.IdCounter.{IdCounter, get_id}
use geminio.Packet.{
  PacketHeader, PacketType, type_byte, ConnFlags, ConnData, SessionFlags, SessionData, MessageData,
  Packet, conn, conn_ack, dis_conn, dis_conn_ack, heartbeat, heartbeat_ack, session, session_ack,
  dismiss, dismiss_ack, message, message_ack, stream, request, response, request_cancel, register,
  register_ack,
}
use geminio.Packet.{
  type_conn, type_conn_ack, type_dis_conn, type_dis_conn_ack, type_heartbeat, type_heartbeat_ack,
  type_session, type_session_ack, type_dismiss, type_dismiss_ack, type_message, type_message_ack,
  type_stream, type_request, type_response, type_request_cancel, type_register, type_register_ack,
}

abbrev pub at_most_once : ℕ
at_most_once = 0x01

abbrev pub at_least_once : ℕ
at_least_once = 0x02

-- `&PacketHeader{Version: V01, ...}`
abbrev pub header : PacketType → ℕ → ℕ → PacketHeader
header t id cnss = record {
  version = 0x01;
  typ = type_byte t;
  packet_id = id;
  packet_len = 0;
  cnss = cnss;
}

-- `if err != nil { ... = err.Error() }`
abbrev pub error_text : Option (List ℕ) → List ℕ
error_text none = []
error_text (some text) = text

-- RetCodeOK or RetCodeERR
abbrev pub ret_code : Option (List ℕ) → ℕ
ret_code none = 0x00
ret_code (some text) = 0x01

abbrev pub new_conn_flags : Bool → ℕ → ConnFlags
new_conn_flags acquire beat = record {
  heartbeat = beat;
  client_id_acquire = acquire;
  packet_id_acquire = false;
  retain = false;
  clear = false;
}

abbrev pub new_session_flags : Bool → SessionFlags
new_session_flags acquire = record { priority = 0; qos = 0; session_id_acquire = acquire }

abbrev pub conn_data : List ℕ → Option (List ℕ) → ConnData
conn_data meta e = record { meta = meta; error = error_text e }

abbrev pub session_data : List ℕ → List ℕ → List ℕ → SessionData
session_data meta error peer = record { meta = meta; error = error; peer = peer }

abbrev pub message_data : List ℕ → List ℕ → List ℕ → MessageData
message_data key value error = record {
  key = key;
  value = value;
  topic = [];
  custom = [];
  error = error;
  timeout = 0;
  deadline = 0;
  context_deadline = 0;
}

-- A factory method that may use its counter.
abbrev pub Made : Type 0
Made = Outcome Packet × IdCounter

-- `packetID := pf.packetIDs.GetID()`, and the packet with that identifier.
unfoldable pub with_new_id : ℕ → IdCounter → (ℕ → Packet) → Made
with_new_id unix c p = ((get_id unix c).0 >>= λ id. ok (p id), (get_id unix c).1)

-- `pkt.sessionID = sessionID`, and SetSessionID of every struct that has it. A session packet keeps
-- the identifier as its negotiateID.
unfoldable pub set_session_id : ℕ → Packet → Packet
set_session_id s (session h f id d) = session h f s d
set_session_id s (session_ack h f negotiate_id id d) = session_ack h f negotiate_id s d
set_session_id s (dismiss h id d) = dismiss h s d
set_session_id s (dismiss_ack h id d) = dismiss_ack h s d
set_session_id s (message h id d) = message h s d
set_session_id s (message_ack h id d) = message_ack h s d
set_session_id s (request h id d) = request h s d
set_session_id s (response h id d) = response h s d
set_session_id s (request_cancel h id cancel_type) = request_cancel h s cancel_type
set_session_id s (stream h id bs) = stream h s bs
set_session_id s (register h id bs) = register h s bs
set_session_id s (register_ack h id d) = register_ack h s d
set_session_id s p = p

-- `pkt.PacketID = id`
unfoldable pub set_packet_id : ℕ → Packet → Packet
set_packet_id i (message h s d) = message (record h { packet_id = i }) s d
set_packet_id i (request h s d) = request (record h { packet_id = i }) s d
set_packet_id i p = p

abbrev pub changed : (Packet → Packet) → Made → Made
changed f (o, c) = (o >>= λ p. ok (f p), c)

module _ (unix : ℕ) (c : IdCounter) where
  unfoldable pub new_packet_id : Outcome ℕ × IdCounter
  new_packet_id = get_id unix c

  unfoldable pub new_conn_packet : ℕ → Bool → ℕ → List ℕ → Made
  new_conn_packet wanted acquire beat meta = with_new_id unix c (λ id.
      conn (header type_conn id at_most_once) (new_conn_flags acquire beat) wanted
        (conn_data meta none))

  unfoldable pub new_dis_conn_packet : Made
  new_dis_conn_packet = with_new_id unix c (λ id. dis_conn (header type_dis_conn id at_most_once))

  unfoldable pub new_heartbeat_packet : Made
  new_heartbeat_packet =
      with_new_id unix c (λ id. heartbeat (header type_heartbeat id at_least_once))

  unfoldable pub new_session_packet : ℕ → Bool → List ℕ → List ℕ → Made
  new_session_packet negotiate_id acquire meta peer = with_new_id unix c (λ id.
      session (header type_session id at_least_once) (new_session_flags acquire) negotiate_id
        (session_data meta [] peer))

  unfoldable pub new_dismiss_packet : ℕ → Made
  new_dismiss_packet session_id =
      with_new_id unix c
        (λ id. dismiss (header type_dismiss id at_least_once) session_id (session_data [] [] []))

  unfoldable pub new_message_packet : List ℕ → List ℕ → Made
  new_message_packet key value =
      with_new_id unix c
        (λ id. message (header type_message id at_least_once) 0 (message_data key value []))

  unfoldable pub new_message_packet_with_id_and_session_id : ℕ → ℕ → List ℕ → List ℕ → Made
  unfolding new_message_packet
  new_message_packet_with_id_and_session_id id session_id key value =
      changed (λ p. set_session_id session_id (set_packet_id id p)) (new_message_packet key value)

  -- The argument `custom` is not used.
  unfoldable pub new_message_packet_with_session_id : ℕ → List ℕ → List ℕ → List ℕ → Made
  new_message_packet_with_session_id session_id key value custom =
      with_new_id unix c (λ id.
        message (header type_message id at_least_once) session_id (message_data key value []))

  unfoldable pub new_request_packet : List ℕ → List ℕ → Made
  new_request_packet key value =
      with_new_id unix c
        (λ id. request (header type_request id at_least_once) 0 (message_data key value []))

  unfoldable pub new_request_packet_with_id_and_session_id : ℕ → ℕ → List ℕ → List ℕ → Made
  unfolding new_request_packet
  new_request_packet_with_id_and_session_id id session_id key value =
      changed (λ p. set_session_id session_id (set_packet_id id p)) (new_request_packet key value)

  unfoldable pub new_stream_packet : List ℕ → Made
  new_stream_packet bytes =
      with_new_id unix c (λ id. stream (header type_stream id at_least_once) 0 bytes)

  unfoldable pub new_stream_packet_with_session_id : ℕ → List ℕ → Made
  unfolding new_stream_packet
  new_stream_packet_with_session_id session_id bytes =
      changed (set_session_id session_id) (new_stream_packet bytes)

  unfoldable pub new_register_packet : List ℕ → Made
  new_register_packet method =
      with_new_id unix c (λ id. register (header type_register id at_least_once) 0 method)

  unfoldable pub new_register_packet_with_session_id : ℕ → List ℕ → Made
  unfolding new_register_packet
  new_register_packet_with_session_id session_id method =
      changed (set_session_id session_id) (new_register_packet method)

unfoldable pub new_conn_ack_packet : ℕ → ℕ → Option (List ℕ) → Packet
new_conn_ack_packet id client_id e =
    conn_ack (header type_conn_ack id at_most_once) (ret_code e) client_id (conn_data [] e)

unfoldable pub new_dis_conn_ack_packet : ℕ → Option (List ℕ) → Packet
new_dis_conn_ack_packet id e =
    dis_conn_ack (header type_dis_conn_ack id at_most_once) (ret_code e) (conn_data [] e)

unfoldable pub new_heartbeat_ack_packet : ℕ → Packet
new_heartbeat_ack_packet id = heartbeat_ack (header type_heartbeat_ack id at_most_once)

unfoldable pub new_session_ack_packet : ℕ → ℕ → ℕ → Option (List ℕ) → Packet
new_session_ack_packet id negotiate_id session_id e =
    session_ack (header type_session_ack id at_least_once) (new_session_flags false) negotiate_id
      session_id (session_data [] (error_text e) [])

unfoldable pub new_dismiss_ack_packet : ℕ → ℕ → Option (List ℕ) → Packet
new_dismiss_ack_packet id session_id e =
    dismiss_ack (header type_dismiss_ack id at_least_once) session_id
      (session_data [] (error_text e) [])

unfoldable pub new_message_ack_packet : ℕ → Option (List ℕ) → Packet
new_message_ack_packet id e =
    message_ack (header type_message_ack id at_least_once) 0 (message_data [] [] (error_text e))

unfoldable pub new_message_ack_packet_with_session_id : ℕ → ℕ → Option (List ℕ) → Packet
unfolding new_message_ack_packet
new_message_ack_packet_with_session_id session_id id e =
    set_session_id session_id (new_message_ack_packet id e)

unfoldable pub new_request_cancel_packet_with_id_and_session_id : ℕ → ℕ → ℕ → Packet
new_request_cancel_packet_with_id_and_session_id id session_id cancel_type =
    request_cancel (header type_request_cancel id at_least_once) session_id cancel_type

unfoldable pub new_response_packet : ℕ → List ℕ → List ℕ → Option (List ℕ) → Packet
new_response_packet id key value e =
    response (header type_response id at_least_once) 0 (message_data key value (error_text e))

unfoldable pub new_register_ack_packet : ℕ → Option (List ℕ) → Packet
new_register_ack_packet id e =
    register_ack (header type_register_ack id at_least_once) 0 (record { error = error_text e })

unfoldable pub new_register_ack_packet_with_session_id : ℕ → ℕ → Option (List ℕ) → Packet
unfolding new_register_ack_packet
new_register_ack_packet_with_session_id session_id id e =
    set_session_id session_id (new_register_ack_packet id e)
