-- ===== src/Packet/Encode.antt =====
-- The Encode methods of the packet structs. Each buffer is written out as the list of its bytes.
use geminio.Common.{
  ℕ, ◌*◌, ◌/◌, ◌%◌, Bool, List, [], ◌∷◌, ◌++◌, ◌==◌, if◌then◌else◌, bit_or, none, some, Outcome, ok,
  err, json_error, ◌>>=◌,
}
use geminio.Wire.{put_uint16, put_uint64}
use geminio.Packet.{
  Env, Json, PacketHeader, ConnFlags, ConnData, SessionFlags, SessionData, MessageData,
  RegisterData, Packet, conn, conn_ack, dis_conn, dis_conn_ack, heartbeat, heartbeat_ack, session,
  session_ack, dismiss, dismiss_ack, message, message_ack, stream, request, response,
  request_cancel, register, register_ack,
}
use geminio.Packet.Header.{encode_header, framed}

-- json.Marshal
abbrev pub marshalled : {D : Type 0} → Json D → D → Outcome (List ℕ)
marshalled j d = elim (j.marshal d) [ none ↦ err json_error | some bs ↦ ok bs ]

abbrev pub bit_if : Bool → ℕ → ℕ → ℕ
bit_if b mask byte = if b then bit_or byte mask else byte

-- The byte of ConnPacket.Encode's flags: five conditional `|=`, on a zero byte.
unfoldable pub conn_flag_byte : Env → ConnFlags → ℕ
conn_flag_byte env f =
    let flags =
      bit_if f.client_id_acquire 0x08
        (bit_if f.packet_id_acquire 0x04 (bit_if f.clear 0x02 (bit_if f.retain 0x01 0))) in
    if f.heartbeat == 5 then flags else bit_or flags (env.fourth_root f.heartbeat * 16 % 256)

-- `byte(qos) << 4 >> 4`, with the bit of sessionIDAcquire.
unfoldable pub session_flag_byte : SessionFlags → ℕ
session_flag_byte f = bit_if f.session_id_acquire 0x10 (f.qos % 256 * 16 % 256 / 16)

abbrev pub with_data : {D : Type 0} → Json D → PacketHeader → List ℕ → D → Outcome (List ℕ)
with_data j h fields d = do bs ← marshalled j d; ok (framed h (fields ++ bs))

unfoldable pub encode_conn : Env → PacketHeader → ConnFlags → ℕ → ConnData → Outcome (List ℕ)
encode_conn env h flags id d =
    with_data env.conn_json h (conn_flag_byte env flags ∷ 0 ∷ put_uint64 id) d

unfoldable pub encode_conn_ack : Env → PacketHeader → ℕ → ℕ → ConnData → Outcome (List ℕ)
encode_conn_ack env h ret_code id d = with_data env.conn_json h (ret_code ∷ put_uint64 id) d

unfoldable pub encode_dis_conn : PacketHeader → Outcome (List ℕ)
encode_dis_conn h = ok (encode_header h)

unfoldable pub encode_dis_conn_ack : Env → PacketHeader → ℕ → ConnData → Outcome (List ℕ)
encode_dis_conn_ack env h ret_code d = with_data env.conn_json h (ret_code ∷ []) d

unfoldable pub encode_heartbeat : PacketHeader → Outcome (List ℕ)
encode_heartbeat h = ok (encode_header h)

unfoldable pub encode_heartbeat_ack : PacketHeader → Outcome (List ℕ)
encode_heartbeat_ack h = ok (encode_header h)

unfoldable pub encode_session :
    Env → PacketHeader → SessionFlags → ℕ → SessionData → Outcome (List ℕ)
encode_session env h flags id d =
    with_data env.session_json h (flags.priority ∷ session_flag_byte flags ∷ put_uint64 id) d

unfoldable pub encode_session_ack :
    Env → PacketHeader → SessionFlags → ℕ → ℕ → SessionData → Outcome (List ℕ)
encode_session_ack env h flags negotiate_id id d =
    with_data env.session_json h (0 ∷ 0 ∷ put_uint64 negotiate_id ++ put_uint64 id) d

unfoldable pub encode_dismiss : Env → PacketHeader → ℕ → SessionData → Outcome (List ℕ)
encode_dismiss env h id d = with_data env.session_json h (put_uint64 id) d

unfoldable pub encode_dismiss_ack : Env → PacketHeader → ℕ → SessionData → Outcome (List ℕ)
encode_dismiss_ack env h id d = with_data env.session_json h (put_uint64 id) d

unfoldable pub encode_message : Env → PacketHeader → ℕ → MessageData → Outcome (List ℕ)
encode_message env h id d = with_data env.message_json h (put_uint64 id) d

unfoldable pub encode_message_ack : Env → PacketHeader → ℕ → MessageData → Outcome (List ℕ)
encode_message_ack env h id d = with_data env.message_json h (put_uint64 id) d

unfoldable pub encode_stream : PacketHeader → ℕ → List ℕ → Outcome (List ℕ)
encode_stream h id bs = ok (framed h (put_uint64 id ++ bs))

-- Encode of the embedded MessagePacket.
unfoldable pub encode_request : Env → PacketHeader → ℕ → MessageData → Outcome (List ℕ)
unfolding encode_message
encode_request env h id d = encode_message env h id d

-- Encode of the embedded MessageAckPacket.
unfoldable pub encode_response : Env → PacketHeader → ℕ → MessageData → Outcome (List ℕ)
unfolding encode_message_ack
encode_response env h id d = encode_message_ack env h id d

unfoldable pub encode_request_cancel : PacketHeader → ℕ → ℕ → Outcome (List ℕ)
encode_request_cancel h id cancel_type = ok (framed h (put_uint64 id ++ put_uint16 cancel_type))

unfoldable pub encode_register : PacketHeader → ℕ → List ℕ → Outcome (List ℕ)
encode_register h id method = ok (framed h (put_uint64 id ++ method))

unfoldable pub encode_register_ack : Env → PacketHeader → ℕ → RegisterData → Outcome (List ℕ)
encode_register_ack env h id d = with_data env.register_json h (put_uint64 id) d

-- packet.Encode: the method of the packet's own struct.
unfoldable pub encode : Env → Packet → Outcome (List ℕ)
unfolding encode_conn encode_conn_ack encode_dis_conn encode_dis_conn_ack encode_heartbeat
    encode_heartbeat_ack encode_session encode_session_ack encode_dismiss encode_dismiss_ack
    encode_message encode_message_ack encode_stream encode_request encode_response
    encode_request_cancel encode_register encode_register_ack
encode env (conn h flags id d) = encode_conn env h flags id d
encode env (conn_ack h ret_code id d) = encode_conn_ack env h ret_code id d
encode env (dis_conn h) = encode_dis_conn h
encode env (dis_conn_ack h ret_code d) = encode_dis_conn_ack env h ret_code d
encode env (heartbeat h) = encode_heartbeat h
encode env (heartbeat_ack h) = encode_heartbeat_ack h
encode env (session h flags id d) = encode_session env h flags id d
encode env (session_ack h flags negotiate_id id d) =
    encode_session_ack env h flags negotiate_id id d
encode env (dismiss h id d) = encode_dismiss env h id d
encode env (dismiss_ack h id d) = encode_dismiss_ack env h id d
encode env (message h id d) = encode_message env h id d
encode env (message_ack h id d) = encode_message_ack env h id d
encode env (stream h id bs) = encode_stream h id bs
encode env (request h id d) = encode_request env h id d
encode env (response h id d) = encode_response env h id d
encode env (request_cancel h id cancel_type) = encode_request_cancel h id cancel_type
encode env (register h id method) = encode_register h id method
encode env (register_ack h id d) = encode_register_ack env h id d
