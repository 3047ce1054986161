-- ===== src/Packet/RoundTrip/Decoded.antt =====
-- Decode after Encode, for every packet struct but two; and Decode of those two.
use geminio.Common.{
  ℕ, ◌-◌, ◌<◌, ◌≡◌, ◌^◌, refl, ap, List, [], ◌∷◌, ◌++◌, append_assoc, length, ok, arith, ◌∙◌, Bool,
  true, false,
}
use geminio.Wire.{put_uint16, put_uint64}
use geminio.Packet.{
  Env, PacketHeader, Packet, conn, conn_ack, dis_conn, ConnFlags, ConnData, SessionFlags,
  SessionData, dis_conn_ack, heartbeat, heartbeat_ack, session, session_ack, dismiss, dismiss_ack,
  message, message_ack, stream, request, response, request_cancel, register, register_ack,
}
use geminio.Packet.{
  type_conn, type_conn_ack, type_dis_conn, type_dis_conn_ack, type_heartbeat, type_heartbeat_ack,
  type_session, type_session_ack, type_dismiss, type_dismiss_ack, type_message, type_message_ack,
  type_stream, type_request_cancel, type_register, type_register_ack,
}
use geminio.Packet.Header.{framed}
use geminio.Packet.Body.{
  dismiss_fields, dismiss_ack_fields, message_fields, message_ack_fields, stream_fields,
  register_fields, register_ack_fields,
}
use geminio.Packet.Encode.{encode, conn_flag_byte, session_flag_byte}
use geminio.Packet.Decode.{decoded, decode, decode_typed}
use geminio.Packet.RoundTrip.Headers.{sent}
use geminio.Packet.RoundTrip.Fields.{request_cancel_fields_lem}
use geminio.Packet.RoundTrip.Flags.{conn_flags-conn_flag_byte, session_flags-session_flag_byte}
use geminio.Packet.RoundTrip.Payloads.{
  conn_fields_lem, conn_ack_fields_lem, session_fields_lem, session_ack_fields_lem,
  dis_conn_ack_fields_lem,
}
use geminio.Packet.RoundTrip.Peer.{as_received, IsSendable}
use geminio.Packet.RoundTrip.Frames.{with_data-eq-ok}
use geminio.Packet.RoundTrip.DecodeFrames.{
  checked_ok, id_length, decode_frame, decode_json_frame, decode_bytes_frame, decode_empty_frame,
}

module _ (env : Env) (spare : List ℕ) (h : PacketHeader) {bs : List ℕ}
    (b : length bs < 2 ^ 32) where
  decoded_conn :
      (f : ConnFlags) (id : ℕ) (d : ConnData)
      → IsSendable env (conn h f id d)
      → encode env (conn h f id d) ≡ ok bs
      → decode env (record { elems = bs; spare = spare })
        ≡ decoded (as_received (length bs - 14) (conn h f id d)) (length bs - 14)
  unfolding encode as_received decode_typed
  decoded_conn f id d (fits, hb, hid, l) e =
      let b0 = conn_flag_byte env f in
      let (js, eq, u) = with_data-eq-ok env.conn_json h (b0 ∷ 0 ∷ put_uint64 id) d l e in
      let body : List ℕ = b0 ∷ 0 ∷ put_uint64 id ++ js in
      let k = sent h (length body) in
      decode_frame env h type_conn fits spare body (λ n. as_received n (conn h f id d)) eq b
        (rw (← conn_flags-conn_flag_byte env f hb) (
          checked_ok k (record { elems = body; spare = spare }) refl
            (conn_fields_lem env k id js spare b0 0 d hid (omega (arith, id_length id js)) u)))

  decoded_session :
      (f : SessionFlags) (id : ℕ) (d : SessionData)
      → IsSendable env (session h f id d)
      → encode env (session h f id d) ≡ ok bs
      → decode env (record { elems = bs; spare = spare })
        ≡ decoded (as_received (length bs - 14) (session h f id d)) (length bs - 14)
  unfolding encode as_received decode_typed
  decoded_session f id d (fits, hq, hid, l) e =
      let b1 = session_flag_byte f in
      let (js, eq, u) =
        with_data-eq-ok env.session_json h (f.priority ∷ b1 ∷ put_uint64 id) d l e in
      let body : List ℕ = f.priority ∷ b1 ∷ put_uint64 id ++ js in
      let k = sent h (length body) in
      decode_frame env h type_session fits spare body (λ n. as_received n (session h f id d)) eq b
        (rw (← session_flags-session_flag_byte f hq) (
          checked_ok k (record { elems = body; spare = spare }) refl
            (session_fields_lem env k id js spare f.priority b1 d hid
              (omega (arith, id_length id js)) u)))

  decoded_conn_ack :
      (ret_code id : ℕ) (d : ConnData)
      → IsSendable env (conn_ack h ret_code id d)
      → encode env (conn_ack h ret_code id d) ≡ ok bs
      → decode env (record { elems = bs; spare = spare })
        ≡ decoded (as_received (length bs - 14) (conn_ack h ret_code id d)) (length bs - 14)
  unfolding encode as_received decode_typed
  decoded_conn_ack ret_code id d (fits, hid, l) e =
      let (js, eq, u) = with_data-eq-ok env.conn_json h (ret_code ∷ put_uint64 id) d l e in
      let body : List ℕ = ret_code ∷ put_uint64 id ++ js in
      let k = sent h (length body) in
      decode_frame env h type_conn_ack fits spare body
        (λ n. as_received n (conn_ack h ret_code id d)) eq b
        (checked_ok k (record { elems = body; spare = spare }) refl
          (conn_ack_fields_lem env k id js spare ret_code d hid (omega (arith, id_length id js)) u))

  decoded_dis_conn_ack :
      (ret_code : ℕ) (d : ConnData)
      → IsSendable env (dis_conn_ack h ret_code d)
      → encode env (dis_conn_ack h ret_code d) ≡ ok bs
      → decode env (record { elems = bs; spare = spare })
        ≡ decoded (as_received (length bs - 14) (dis_conn_ack h ret_code d)) (length bs - 14)
  unfolding encode as_received decode_typed
  decoded_dis_conn_ack ret_code d (fits, l) e =
      let (js, eq, u) = with_data-eq-ok env.conn_json h (ret_code ∷ []) d l e in
      let body : List ℕ = ret_code ∷ js in
      let k = sent h (length body) in
      decode_frame env h type_dis_conn_ack fits spare body
        (λ n. as_received n (dis_conn_ack h ret_code d)) eq b
        (checked_ok k (record { elems = body; spare = spare }) refl
          (dis_conn_ack_fields_lem env k js spare ret_code d (omega arith) u))

  decoded_session_ack :
      (f : SessionFlags) (negotiate_id id : ℕ) (d : SessionData)
      → IsSendable env (session_ack h f negotiate_id id d)
      → encode env (session_ack h f negotiate_id id d) ≡ ok bs
      → decode env (record { elems = bs; spare = spare })
        ≡ decoded
            (as_received (length bs - 14) (session_ack h f negotiate_id id d))
            (length bs - 14)
  unfolding encode as_received decode_typed
  decoded_session_ack f negotiate_id id d (fits, hn, hid, l) e =
      let (js, eq, u) =
        with_data-eq-ok env.session_json h (0 ∷ 0 ∷ put_uint64 negotiate_id ++ put_uint64 id) d l
          e in
      let body : List ℕ = 0 ∷ 0 ∷ put_uint64 negotiate_id ++ (put_uint64 id ++ js) in
      let k = sent h (length body) in
      decode_frame env h type_session_ack fits spare body
        (λ n. as_received n (session_ack h f negotiate_id id d))
        (eq
          ∙ ap (λ t. framed h (0 ∷ 0 ∷ t))
              (append_assoc (put_uint64 negotiate_id) (put_uint64 id) js))
        b
        (checked_ok k (record { elems = body; spare = spare }) refl
          (session_ack_fields_lem env k id js spare negotiate_id d hn hid
            (omega (arith, id_length negotiate_id (put_uint64 id ++ js), id_length id js)) u))

  decoded_request_cancel :
      (id cancel_type : ℕ)
      → IsSendable env (request_cancel h id cancel_type)
      → encode env (request_cancel h id cancel_type) ≡ ok bs
      → decode env (record { elems = bs; spare = spare })
        ≡ decoded (as_received (length bs - 14) (request_cancel h id cancel_type)) (length bs - 14)
  unfolding encode as_received decode_typed
  decoded_request_cancel id cancel_type (fits, hid, hc) e =
      let body : List ℕ = put_uint64 id ++ put_uint16 cancel_type in
      let k = sent h (length body) in
      let eq : bs ≡ framed h body = cc in
      decode_frame env h type_request_cancel fits spare body
        (λ n. as_received n (request_cancel h id cancel_type)) eq b
        (checked_ok k (record { elems = body; spare = spare }) refl
          (request_cancel_fields_lem k spare id cancel_type 10 hid hc refl))

-- RequestPacket and ResponsePacket, which Decode does not survive.
abbrev pub is_rpc : Packet → Bool
is_rpc (request h id d) = true
is_rpc (response h id d) = true
is_rpc _ = false

-- Every sendable packet but a request and a response is decoded from its encoding as `as_received`
-- says, with the length of its payload, whatever the slice's array holds behind it.
pub decode-encode :
    (env : Env) (p : Packet) (bs spare : List ℕ)
    → IsSendable env p
    → is_rpc p ≡ false
    → encode env p ≡ ok bs
    → length bs < 2 ^ 32
    → decode env (record { elems = bs; spare = spare })
      ≡ decoded (as_received (length bs - 14) p) (length bs - 14)
unfolding encode as_received decode_typed dismiss_fields dismiss_ack_fields message_fields
    message_ack_fields register_ack_fields stream_fields register_fields
decode-encode env (conn h f id d) bs spare s n e b = decoded_conn env spare h b f id d s e
decode-encode env (conn_ack h ret_code id d) bs spare s n e b =
    decoded_conn_ack env spare h b ret_code id d s e
decode-encode env (dis_conn_ack h ret_code d) bs spare s n e b =
    decoded_dis_conn_ack env spare h b ret_code d s e
decode-encode env (session h f id d) bs spare s n e b = decoded_session env spare h b f id d s e
decode-encode env (session_ack h f negotiate_id id d) bs spare s n e b =
    decoded_session_ack env spare h b f negotiate_id id d s e
decode-encode env (request_cancel h id cancel_type) bs spare s n e b =
    decoded_request_cancel env spare h b id cancel_type s e
decode-encode env (dis_conn h) bs spare (fits, z) n e b =
    decode_empty_frame env h type_dis_conn fits spare dis_conn z (λ k s. refl) (cc)
decode-encode env (heartbeat h) bs spare (fits, z) n e b =
    decode_empty_frame env h type_heartbeat fits spare heartbeat z (λ k s. refl) (cc)
decode-encode env (heartbeat_ack h) bs spare (fits, z) n e b =
    decode_empty_frame env h type_heartbeat_ack fits spare heartbeat_ack z (λ k s. refl) (cc)
decode-encode env (dismiss h id d) bs spare (fits, hid, l) n e b =
    decode_json_frame env h type_dismiss fits spare env.session_json d id dismiss (λ k s. refl) hid
      l e b
decode-encode env (dismiss_ack h id d) bs spare (fits, hid, l) n e b =
    decode_json_frame env h type_dismiss_ack fits spare env.session_json d id dismiss_ack
      (λ k s. refl) hid l e b
decode-encode env (message h id d) bs spare (fits, hid, l) n e b =
    decode_json_frame env h type_message fits spare env.message_json d id message (λ k s. refl) hid
      l e b
decode-encode env (message_ack h id d) bs spare (fits, hid, l) n e b =
    decode_json_frame env h type_message_ack fits spare env.message_json d id message_ack
      (λ k s. refl) hid l e b
decode-encode env (register_ack h id d) bs spare (fits, hid, l) n e b =
    decode_json_frame env h type_register_ack fits spare env.register_json d id register_ack
      (λ k s. refl) hid l e b
decode-encode env (stream h id bytes) bs spare (fits, hid) n e b =
    decode_bytes_frame env h type_stream fits spare id bytes stream (λ k s. refl) hid (cc) b
decode-encode env (register h id bytes) bs spare (fits, hid) n e b =
    decode_bytes_frame env h type_register fits spare id bytes register (λ k s. refl) hid (cc) b
decode-encode env (request h id d) bs spare s n e b = cc
decode-encode env (response h id d) bs spare s n e b = cc
