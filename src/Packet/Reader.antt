-- ===== src/Packet/Reader.antt =====
-- packet.DecodeFromReader and the DecodeFromReader methods that it calls. A decoder maps the bytes
-- that the reader still holds to its outcome and to what it leaves of them.
use geminio.Common.{
  ℕ, ◌+◌, ◌-◌, ◌*◌, ◌%◌, ◌^◌, ltb, if◌then◌else◌, List, Option, none, some, Outcome, ok, err, panic,
  illegal_packet, packet_too_large, unsupported_packet,
}
use geminio.Wire.{Slice, full, index, uint64, read_full}
use geminio.Packet.{
  Env, PacketHeader, PacketType, type_of_byte, Packet, conn, dis_conn, heartbeat, heartbeat_ack,
}
use geminio.Packet.{
  type_conn, type_conn_ack, type_dis_conn, type_dis_conn_ack, type_heartbeat, type_heartbeat_ack,
  type_session, type_session_ack, type_dismiss, type_dismiss_ack, type_message, type_message_ack,
  type_stream, type_request, type_response, type_request_cancel, type_register, type_register_ack,
}
use geminio.Packet.Header.{header_fields}
use geminio.Packet.Body.{
  conn_flags, unmarshalled, conn_ack_fields, dis_conn_ack_fields, session_fields,
  session_ack_fields, dismiss_fields, dismiss_ack_fields, message_fields, message_ack_fields,
  stream_fields, request_fields, response_fields, request_cancel_fields, register_fields,
  register_ack_fields,
}

abbrev pub Read : Type 0 → Type 0
Read A = List ℕ → Outcome A × List ℕ

abbrev pub bind_outcome : {A B : Type 0} → Outcome A × List ℕ → (A → Read B) → Outcome B × List ℕ
bind_outcome (ok a, r) f = f a r
bind_outcome (err e, r) f = (err e, r)
bind_outcome (panic, r) f = (panic, r)

infixl 5 ◌>>=◌
abbrev pub ◌>>=◌ : {A B : Type 0} → Read A → (A → Read B) → Read B
◌>>=◌ m f r = bind_outcome (m r) f

abbrev pub lift : {A : Type 0} → Outcome A → Read A
lift o r = (o, r)

-- MaxDecodablePacketLen
abbrev pub max_decodable_packet_len : ℕ
max_decodable_packet_len = 10 * 1024 * 1024

-- Flags, identifier and data are read one after the other. `PacketLen-10` is a uint32.
unfoldable pub read_conn : Env → PacketHeader → Read Packet
unfolding conn_flags
read_conn env h = do
  flag_bytes ← read_full 2
  flags ← lift (index 0 (full flag_bytes))
  id_bytes ← read_full 8
  id ← lift (uint64 id_bytes)
  bs ← read_full ((h.packet_len + 2 ^ 32 - 10) % 2 ^ 32)
  d ← lift (unmarshalled env.conn_json bs)
  lift (ok (conn h (conn_flags flags) id d))

-- The payload in one buffer of PacketLen bytes.
unfoldable pub read_payload : PacketHeader → (Slice → Outcome Packet) → Read Packet
read_payload h fields = do bs ← read_full h.packet_len; lift (fields (full bs))

-- The methods that refuse a PacketLen below 8 first.
unfoldable pub read_guarded : PacketHeader → (Slice → Outcome Packet) → Read Packet
unfolding read_payload
read_guarded h fields r =
    if ltb h.packet_len 8 then (err illegal_packet, r) else read_payload h fields r

unfoldable pub read_conn_ack : Env → PacketHeader → Read Packet
read_conn_ack env h = read_payload h (conn_ack_fields env h)

unfoldable pub read_dis_conn : PacketHeader → Read Packet
read_dis_conn h = lift (ok (dis_conn h))

unfoldable pub read_dis_conn_ack : Env → PacketHeader → Read Packet
read_dis_conn_ack env h = read_payload h (dis_conn_ack_fields env h)

unfoldable pub read_heartbeat : PacketHeader → Read Packet
read_heartbeat h = lift (ok (heartbeat h))

unfoldable pub read_heartbeat_ack : PacketHeader → Read Packet
read_heartbeat_ack h = lift (ok (heartbeat_ack h))

unfoldable pub read_session : Env → PacketHeader → Read Packet
read_session env h = read_payload h (session_fields env h)

unfoldable pub read_session_ack : Env → PacketHeader → Read Packet
read_session_ack env h = read_payload h (session_ack_fields env h)

unfoldable pub read_dismiss : Env → PacketHeader → Read Packet
read_dismiss env h = read_payload h (dismiss_fields env h)

unfoldable pub read_dismiss_ack : Env → PacketHeader → Read Packet
read_dismiss_ack env h = read_payload h (dismiss_ack_fields env h)

unfoldable pub read_message : Env → PacketHeader → Read Packet
unfolding read_guarded
read_message env h = read_guarded h (message_fields env h)

unfoldable pub read_message_ack : Env → PacketHeader → Read Packet
unfolding read_guarded
read_message_ack env h = read_guarded h (message_ack_fields env h)

unfoldable pub read_stream : PacketHeader → Read Packet
unfolding read_guarded
read_stream h = read_guarded h (stream_fields h)

unfoldable pub read_register : PacketHeader → Read Packet
unfolding read_guarded
read_register h = read_guarded h (register_fields h)

unfoldable pub read_register_ack : Env → PacketHeader → Read Packet
unfolding read_guarded
read_register_ack env h = read_guarded h (register_ack_fields env h)

-- DecodeFromReader of the embedded MessagePacket.
unfoldable pub read_request : Env → PacketHeader → Read Packet
unfolding read_guarded
read_request env h = read_guarded h (request_fields env h)

-- DecodeFromReader of the embedded MessageAckPacket.
unfoldable pub read_response : Env → PacketHeader → Read Packet
unfolding read_guarded
read_response env h = read_guarded h (response_fields env h)

unfoldable pub read_request_cancel : PacketHeader → Read Packet
unfolding read_guarded
read_request_cancel h = read_guarded h (request_cancel_fields h h.packet_len)

unfoldable pub read_typed : Env → PacketHeader → PacketType → Read Packet
unfolding read_conn_ack read_dis_conn read_dis_conn_ack read_heartbeat read_heartbeat_ack
    read_session read_session_ack read_dismiss read_dismiss_ack read_message read_message_ack
    read_stream read_register read_register_ack read_request read_response read_request_cancel
read_typed env h type_conn = read_conn env h
read_typed env h type_conn_ack = read_conn_ack env h
read_typed env h type_dis_conn = read_dis_conn h
read_typed env h type_dis_conn_ack = read_dis_conn_ack env h
read_typed env h type_heartbeat = read_heartbeat h
read_typed env h type_heartbeat_ack = read_heartbeat_ack h
read_typed env h type_session = read_session env h
read_typed env h type_session_ack = read_session_ack env h
read_typed env h type_dismiss = read_dismiss env h
read_typed env h type_dismiss_ack = read_dismiss_ack env h
read_typed env h type_message = read_message env h
read_typed env h type_message_ack = read_message_ack env h
read_typed env h type_stream = read_stream h
read_typed env h type_register = read_register h
read_typed env h type_register_ack = read_register_ack env h
read_typed env h type_request = read_request env h
read_typed env h type_response = read_response env h
read_typed env h type_request_cancel = read_request_cancel h

abbrev read_known : Env → PacketHeader → Option PacketType → Read Packet
read_known env h none = lift (err unsupported_packet)
read_known env h (some t) = read_typed env h t

-- The test of the declared length stands before the `switch`.
unfoldable pub read_body : Env → PacketHeader → Read Packet
read_body env h r =
    if ltb max_decodable_packet_len h.packet_len
    then (err packet_too_large, r)
    else read_known env h (type_of_byte h.typ) r

unfoldable pub decode_from_reader : Env → Read Packet
unfolding read_body
decode_from_reader env = do bs ← read_full 14; h ← lift (header_fields (full bs)); read_body env h
