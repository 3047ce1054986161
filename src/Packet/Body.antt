-- ===== src/Packet/Body.antt =====
-- The payload fields that Decode and DecodeFromReader of each packet struct read from `data`.
-- The two methods repeat this code; what differs stands in Packet/Decode and Packet/Reader.
use geminio.Common.{
  ℕ, ◌*◌, ◌/◌, ◌^◌, Bool, not, List, ◌==◌, bit_and, none, some, Outcome, ok, err, json_error, ◌>>=◌,
}
use geminio.Wire.{Slice, index, slice, uint16, uint64}
use geminio.Packet.{
  Env, Json, PacketHeader, ConnFlags, SessionFlags, Packet, conn, conn_ack, dis_conn_ack, session,
  session_ack, dismiss, dismiss_ack, message, message_ack, stream, request, response,
  request_cancel, register, register_ack,
}

abbrev pub is_set : ℕ → ℕ → Bool
is_set b mask = not (bit_and b mask == 0)

-- json.Unmarshal into a new struct.
abbrev pub unmarshalled : {D : Type 0} → Json D → List ℕ → Outcome D
unmarshalled j bs = elim (j.unmarshal bs) [ none ↦ err json_error | some d ↦ ok d ]

-- The flag byte of a ConnPacket.
unfoldable pub conn_flags : ℕ → ConnFlags
conn_flags b = record {
  heartbeat = 5 * 4 ^ (bit_and b 0x30 / 16);
  client_id_acquire = is_set b 0x08;
  packet_id_acquire = is_set b 0x04;
  retain = is_set b 0x01;
  clear = is_set b 0x02;
}

unfoldable pub session_flags : ℕ → ℕ → SessionFlags
session_flags b0 b1 = record {
  priority = b0;
  qos = bit_and b1 0x0f;
  session_id_acquire = is_set b1 0x10;
}

-- The 8 bytes of an identifier from `lo` on.
abbrev pub id_at : ℕ → ℕ → Slice → Outcome ℕ
id_at lo hi s = do bs ← slice lo hi s; uint64 bs

abbrev pub data_at : {D : Type 0} → Json D → ℕ → ℕ → Slice → Outcome D
data_at j lo hi s = do bs ← slice lo hi s; unmarshalled j bs

-- An identifier and a JSON payload behind it.
abbrev pub id_and_data : {D : Type 0} → Json D → ℕ → Slice → (ℕ → D → Packet) → Outcome Packet
id_and_data j len s make = do id ← id_at 0 8 s; d ← data_at j 8 len s; ok (make id d)

-- An identifier and the bytes behind it.
abbrev pub id_and_bytes : ℕ → Slice → (ℕ → List ℕ → Packet) → Outcome Packet
id_and_bytes len s make = do id ← id_at 0 8 s; bs ← slice 8 len s; ok (make id bs)

module _ (env : Env) (h : PacketHeader) where
  unfoldable pub conn_fields : Slice → Outcome Packet
  unfolding conn_flags
  conn_fields s = do
    flag_bytes ← slice 0 1 s
    flags ← index 0 (record { elems = flag_bytes; spare = s.spare })
    id ← id_at 2 10 s
    d ← data_at env.conn_json 10 h.packet_len s
    ok (conn h (conn_flags flags) id d)

  unfoldable pub conn_ack_fields : Slice → Outcome Packet
  conn_ack_fields s = do
    ret_code ← index 0 s
    id ← id_at 1 9 s
    d ← data_at env.conn_json 9 h.packet_len s
    ok (conn_ack h ret_code id d)

  unfoldable pub dis_conn_ack_fields : Slice → Outcome Packet
  dis_conn_ack_fields s = do
    ret_code ← index 0 s
    d ← data_at env.conn_json 1 h.packet_len s
    ok (dis_conn_ack h ret_code d)

  unfoldable pub session_fields : Slice → Outcome Packet
  unfolding session_flags
  session_fields s = do
    b0 ← index 0 s
    b1 ← index 1 s
    id ← id_at 2 10 s
    d ← data_at env.session_json 10 h.packet_len s
    ok (session h (session_flags b0 b1) id d)

  -- The flags of a SessionAckPacket are not on the wire: they keep Go's zero values.
  unfoldable pub session_ack_fields : Slice → Outcome Packet
  session_ack_fields s = do
    negotiate_id ← id_at 2 10 s
    session_id ← id_at 10 18 s
    d ← data_at env.session_json 18 h.packet_len s
    let flags : SessionFlags = record { priority = 0; qos = 0; session_id_acquire = Bool.false }
    ok (session_ack h flags negotiate_id session_id d)

  unfoldable pub dismiss_fields : Slice → Outcome Packet
  dismiss_fields s = id_and_data env.session_json h.packet_len s (dismiss h)

  unfoldable pub dismiss_ack_fields : Slice → Outcome Packet
  dismiss_ack_fields s = id_and_data env.session_json h.packet_len s (dismiss_ack h)

  unfoldable pub message_fields : Slice → Outcome Packet
  message_fields s = id_and_data env.message_json h.packet_len s (message h)

  unfoldable pub message_ack_fields : Slice → Outcome Packet
  message_ack_fields s = id_and_data env.message_json h.packet_len s (message_ack h)

  -- RequestPacket and ResponsePacket take these methods from the struct that they embed.
  unfoldable pub request_fields : Slice → Outcome Packet
  request_fields s = id_and_data env.message_json h.packet_len s (request h)

  unfoldable pub response_fields : Slice → Outcome Packet
  response_fields s = id_and_data env.message_json h.packet_len s (response h)

  unfoldable pub register_ack_fields : Slice → Outcome Packet
  register_ack_fields s = id_and_data env.register_json h.packet_len s (register_ack h)

-- These payloads are not JSON.
module _ (h : PacketHeader) where
  unfoldable pub stream_fields : Slice → Outcome Packet
  stream_fields s = id_and_bytes h.packet_len s (stream h)

  unfoldable pub register_fields : Slice → Outcome Packet
  register_fields s = id_and_bytes h.packet_len s (register h)

  -- `hi` is the end of the slice that the cancel type is read from.
  unfoldable pub request_cancel_fields : ℕ → Slice → Outcome Packet
  request_cancel_fields hi s = do
    id ← id_at 0 8 s
    cancel_bytes ← slice 8 hi s
    cancel_type ← uint16 cancel_bytes
    ok (request_cancel h id cancel_type)
