-- ===== src/Packet/RoundTrip/Peer.antt =====
-- What of a packet reaches its peer, and which packets can be sent.
use geminio.Common.{ℕ, ◌^◌, ◌<◌, ◌%◌, ◌≡◌}
use geminio.Packet.{
  Env, PacketHeader, PacketType, type_byte, Packet, conn, conn_ack, dis_conn, dis_conn_ack,
  heartbeat, heartbeat_ack, session, session_ack, dismiss, dismiss_ack, message, message_ack,
  stream, request, response, request_cancel, register, register_ack,
}
use geminio.Packet.{
  type_conn, type_conn_ack, type_dis_conn, type_dis_conn_ack, type_heartbeat, type_heartbeat_ack,
  type_session, type_session_ack, type_dismiss, type_dismiss_ack, type_message, type_message_ack,
  type_stream, type_request, type_response, type_request_cancel, type_register, type_register_ack,
}
use geminio.Packet.RoundTrip.Headers.{sent}
use geminio.Packet.RoundTrip.Flags.{heartbeat_received, IsNamedHeartbeat}
use geminio.Packet.RoundTrip.Payloads.{no_flags}

-- The packet that a peer holds after it decoded a body of `n` bytes: all fields but the length, the
-- consistency, the upper bits of a Qos, the flags of a session ack and the largest heartbeat.
unfoldable pub as_received : ℕ → Packet → Packet
as_received n (conn h f id d) =
    conn (sent h n) (record f { heartbeat = heartbeat_received f.heartbeat }) id d
as_received n (conn_ack h ret_code id d) = conn_ack (sent h n) ret_code id d
as_received n (dis_conn h) = dis_conn (sent h n)
as_received n (dis_conn_ack h ret_code d) = dis_conn_ack (sent h n) ret_code d
as_received n (heartbeat h) = heartbeat (sent h n)
as_received n (heartbeat_ack h) = heartbeat_ack (sent h n)
as_received n (session h f id d) = session (sent h n) (record f { qos = f.qos % 16 }) id d
as_received n (session_ack h f negotiate_id id d) =
    session_ack (sent h n) no_flags negotiate_id id d
as_received n (dismiss h id d) = dismiss (sent h n) id d
as_received n (dismiss_ack h id d) = dismiss_ack (sent h n) id d
as_received n (message h id d) = message (sent h n) id d
as_received n (message_ack h id d) = message_ack (sent h n) id d
as_received n (stream h id bs) = stream (sent h n) id bs
as_received n (request h id d) = request (sent h n) id d
as_received n (response h id d) = response (sent h n) id d
as_received n (request_cancel h id cancel_type) = request_cancel (sent h n) id cancel_type
as_received n (register h id method) = register (sent h n) id method
as_received n (register_ack h id d) = register_ack (sent h n) id d

-- The header names the struct's own type, and its identifier is a uint64.
abbrev pub Fits : PacketHeader → PacketType → Type 0
Fits h t = (h.typ ≡ type_byte t) × (h.packet_id < 2 ^ 64)

abbrev pub IsId : ℕ → Type 0
IsId id = id < 2 ^ 64

-- Fields within their Go types, a named heartbeat, a payload that survives JSON, and no declared
-- length where there is no payload.
abbrev pub IsSendable : Env → Packet → Type 0
IsSendable env (conn h f id d) =
    Fits h type_conn × IsNamedHeartbeat f.heartbeat × IsId id × env.conn_json.Lossless d
IsSendable env (conn_ack h ret_code id d) =
    Fits h type_conn_ack × IsId id × env.conn_json.Lossless d
IsSendable env (dis_conn h) = Fits h type_dis_conn × (h.packet_len ≡ 0)
IsSendable env (dis_conn_ack h ret_code d) = Fits h type_dis_conn_ack × env.conn_json.Lossless d
IsSendable env (heartbeat h) = Fits h type_heartbeat × (h.packet_len ≡ 0)
IsSendable env (heartbeat_ack h) = Fits h type_heartbeat_ack × (h.packet_len ≡ 0)
IsSendable env (session h f id d) =
    Fits h type_session × (f.qos < 256) × IsId id × env.session_json.Lossless d
IsSendable env (session_ack h f negotiate_id id d) =
    Fits h type_session_ack × IsId negotiate_id × IsId id × env.session_json.Lossless d
IsSendable env (dismiss h id d) = Fits h type_dismiss × IsId id × env.session_json.Lossless d
IsSendable env (dismiss_ack h id d) =
    Fits h type_dismiss_ack × IsId id × env.session_json.Lossless d
IsSendable env (message h id d) = Fits h type_message × IsId id × env.message_json.Lossless d
IsSendable env (message_ack h id d) =
    Fits h type_message_ack × IsId id × env.message_json.Lossless d
IsSendable env (stream h id bs) = Fits h type_stream × IsId id
IsSendable env (request h id d) = Fits h type_request × IsId id × env.message_json.Lossless d
IsSendable env (response h id d) = Fits h type_response × IsId id × env.message_json.Lossless d
IsSendable env (request_cancel h id cancel_type) =
    Fits h type_request_cancel × IsId id × (cancel_type < 2 ^ 16)
IsSendable env (register h id method) = Fits h type_register × IsId id
IsSendable env (register_ack h id d) =
    Fits h type_register_ack × IsId id × env.register_json.Lossless d
