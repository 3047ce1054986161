-- ===== src/Packet/Decode.antt =====
-- packet.Decode, from a byte slice, and the Decode methods that it calls.
use geminio.Common.{
  ℕ, ◌-◌, ◌%◌, ◌^◌, ltb, if◌then◌else◌, length, drop, Option, none, some, Error, Outcome, ok, err,
  panic, incomplete_packet, expecting_data, unsupported_packet,
}
use geminio.Wire.{Slice}
use geminio.Packet.{
  Env, PacketHeader, PacketType, type_of_byte, Packet, dis_conn, heartbeat, heartbeat_ack,
}
use geminio.Packet.{
  type_conn, type_conn_ack, type_dis_conn, type_dis_conn_ack, type_heartbeat, type_heartbeat_ack,
  type_session, type_session_ack, type_dismiss, type_dismiss_ack, type_message, type_message_ack,
  type_stream, type_request, type_response, type_request_cancel, type_register, type_register_ack,
}
use geminio.Packet.Header.{decode_header}
use geminio.Packet.Body.{
  request_fields, response_fields, conn_fields, conn_ack_fields, dis_conn_ack_fields,
  session_fields, session_ack_fields, dismiss_fields, dismiss_ack_fields, message_fields,
  message_ack_fields, stream_fields, request_cancel_fields, register_fields, register_ack_fields,
}

-- The packet with the count of bytes, or an error with the count. The partly filled packet that
-- accompanies an error is left out.
pub data Decoded : Type 0 where
  decoded : Packet → ℕ → Decoded
  failed : Error → ℕ → Decoded
  panicked : Decoded

-- `return uint32(length), nil` or `return 0, err`
abbrev pub counted : ℕ → Outcome Packet → Decoded
counted n (ok p) = decoded p n
counted n (err e) = failed e 0
counted n panic = panicked

-- A Decode method whose first test is `len(data) < int(PacketLen)`.
abbrev pub checked : PacketHeader → Slice → Outcome Packet → Decoded
checked h s fields =
    if ltb (length s.elems) h.packet_len
    then failed incomplete_packet 0
    else counted h.packet_len fields

unfoldable pub decode_conn : Env → PacketHeader → Slice → Decoded
decode_conn env h s = checked h s (conn_fields env h s)

unfoldable pub decode_conn_ack : Env → PacketHeader → Slice → Decoded
decode_conn_ack env h s = checked h s (conn_ack_fields env h s)

unfoldable pub decode_dis_conn : PacketHeader → Slice → Decoded
decode_dis_conn h s = decoded (dis_conn h) 0

unfoldable pub decode_dis_conn_ack : Env → PacketHeader → Slice → Decoded
decode_dis_conn_ack env h s = checked h s (dis_conn_ack_fields env h s)

unfoldable pub decode_heartbeat : PacketHeader → Slice → Decoded
decode_heartbeat h s = decoded (heartbeat h) 0

unfoldable pub decode_heartbeat_ack : PacketHeader → Slice → Decoded
decode_heartbeat_ack h s = decoded (heartbeat_ack h) 0

unfoldable pub decode_session : Env → PacketHeader → Slice → Decoded
decode_session env h s = checked h s (session_fields env h s)

unfoldable pub decode_session_ack : Env → PacketHeader → Slice → Decoded
decode_session_ack env h s = checked h s (session_ack_fields env h s)

unfoldable pub decode_dismiss : Env → PacketHeader → Slice → Decoded
decode_dismiss env h s = checked h s (dismiss_fields env h s)

unfoldable pub decode_dismiss_ack : Env → PacketHeader → Slice → Decoded
decode_dismiss_ack env h s = checked h s (dismiss_ack_fields env h s)

unfoldable pub decode_message : Env → PacketHeader → Slice → Decoded
decode_message env h s = checked h s (message_fields env h s)

unfoldable pub decode_message_ack : Env → PacketHeader → Slice → Decoded
decode_message_ack env h s = checked h s (message_ack_fields env h s)

unfoldable pub decode_stream : PacketHeader → Slice → Decoded
decode_stream h s = checked h s (stream_fields h s)

unfoldable pub decode_register : PacketHeader → Slice → Decoded
decode_register h s = checked h s (register_fields h s)

unfoldable pub decode_register_ack : Env → PacketHeader → Slice → Decoded
decode_register_ack env h s = checked h s (register_ack_fields env h s)

unfoldable pub decode_request_cancel : PacketHeader → Slice → Decoded
decode_request_cancel h s = checked h s (request_cancel_fields h 10 s)

-- RequestPacket and ResponsePacket have their PacketHeader in a struct that they embed by a pointer: the
-- header behind that pointer, or none when it is nil, as the literals `&RequestPacket{}` and
-- `&ResponsePacket{}` leave it.
abbrev pub Embedded : Type 0
Embedded = Option PacketHeader

unfoldable pub new_embedded : Embedded
new_embedded = none

-- `pkt.PacketHeader = pktHdr` goes through the pointer.
unfoldable pub assign_header : PacketHeader → Embedded → Outcome PacketHeader
assign_header h none = panic
assign_header h (some old) = ok h

-- The assignment, and the Decode method of the embedded struct.
unfoldable pub decode_embedded : PacketHeader → (PacketHeader → Decoded) → Decoded
unfolding assign_header new_embedded
decode_embedded h method = elim (assign_header h new_embedded) [
  | ok k ↦ method k
  | err e ↦ failed e 14
  | panic ↦ panicked
]

-- The `switch`.
unfoldable pub decode_typed : Env → PacketHeader → PacketType → Slice → Decoded
unfolding decode_conn decode_conn_ack decode_dis_conn decode_dis_conn_ack decode_heartbeat
    decode_heartbeat_ack decode_session decode_session_ack decode_dismiss decode_dismiss_ack
    decode_message decode_message_ack decode_stream decode_register decode_register_ack
    decode_request_cancel decode_embedded
decode_typed env h type_conn s = decode_conn env h s
decode_typed env h type_conn_ack s = decode_conn_ack env h s
decode_typed env h type_dis_conn s = decode_dis_conn h s
decode_typed env h type_dis_conn_ack s = decode_dis_conn_ack env h s
decode_typed env h type_heartbeat s = decode_heartbeat h s
decode_typed env h type_heartbeat_ack s = decode_heartbeat_ack h s
decode_typed env h type_session s = decode_session env h s
decode_typed env h type_session_ack s = decode_session_ack env h s
decode_typed env h type_dismiss s = decode_dismiss env h s
decode_typed env h type_dismiss_ack s = decode_dismiss_ack env h s
decode_typed env h type_message s = decode_message env h s
decode_typed env h type_message_ack s = decode_message_ack env h s
decode_typed env h type_stream s = decode_stream h s
decode_typed env h type_register s = decode_register h s
decode_typed env h type_register_ack s = decode_register_ack env h s
decode_typed env h type_request s = decode_embedded h (λ k. checked k s (request_fields env k s))
decode_typed env h type_response s = decode_embedded h (λ k. checked k s (response_fields env k s))
decode_typed env h type_request_cancel s = decode_request_cancel h s

-- data[14:]
abbrev payload : Slice → Slice
payload s = record s { elems = drop 14 s.elems }

abbrev decode_known : Env → PacketHeader → Slice → Option PacketType → Decoded
decode_known env h s none = failed unsupported_packet 10
decode_known env h s (some t) = decode_typed env h t (payload s)

abbrev decode_payload : Env → Slice → PacketHeader → Decoded
decode_payload env s h =
    if ltb ((length s.elems - 14) % 2 ^ 32) h.packet_len
    then failed expecting_data 14
    else decode_known env h s (type_of_byte h.typ)

unfoldable pub decode : Env → Slice → Decoded
decode env s = elim (decode_header s) [
  | ok h ↦ decode_payload env s h
  | err e ↦ failed e 0
  | panic ↦ panicked
]
