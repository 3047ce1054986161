-- ===== src/Packet/RoundTrip/Received.antt =====
-- DecodeFromReader after Encode, for every packet struct.
use geminio.Common.{
  ℕ, ◌+◌, ◌-◌, ◌≤◌, ◌≡◌, refl, ap, List, [], ◌∷◌, ◌++◌, append_assoc, length, length-append, ok,
  arith, ◌∙◌,
}
use geminio.Wire.{put_uint16, put_uint64}
use geminio.Wire.Laws.{length-put_uint64}
use geminio.Packet.{
  Env, PacketHeader, Packet, conn, conn_ack, dis_conn, ConnFlags, ConnData, SessionFlags,
  SessionData, dis_conn_ack, heartbeat, heartbeat_ack, session, session_ack, dismiss, dismiss_ack,
  message, message_ack, stream, request, response, request_cancel, register, register_ack,
}
use geminio.Packet.{
  type_conn, type_conn_ack, type_dis_conn, type_dis_conn_ack, type_heartbeat, type_heartbeat_ack,
  type_session, type_session_ack, type_dismiss, type_dismiss_ack, type_message, type_message_ack,
  type_stream, type_request, type_response, type_request_cancel, type_register, type_register_ack,
}
use geminio.Packet.Header.{framed}
use geminio.Packet.Body.{
  session_flags, conn_ack_fields, dis_conn_ack_fields, session_fields, session_ack_fields,
  dismiss_fields, dismiss_ack_fields, message_fields, message_ack_fields, stream_fields,
  request_fields, response_fields, request_cancel_fields, register_fields, register_ack_fields,
}
use geminio.Packet.Encode.{encode, conn_flag_byte, session_flag_byte}
use geminio.Packet.Reader.{decode_from_reader, read_typed, max_decodable_packet_len}
use geminio.Packet.RoundTrip.Headers.{sent}
use geminio.Packet.RoundTrip.Fields.{request_cancel_fields_lem}
use geminio.Packet.RoundTrip.Flags.{conn_flags-conn_flag_byte, session_flags-session_flag_byte}
use geminio.Packet.RoundTrip.Payloads.{
  no_flags, conn_ack_fields_lem, session_fields_lem, session_ack_fields_lem,
  dis_conn_ack_fields_lem,
}
use geminio.Packet.RoundTrip.Peer.{as_received, IsSendable}
use geminio.Packet.RoundTrip.Frames.{
  length-framed, with_data-eq-ok, read_payload_lem, read_guarded_lem,
}
use geminio.Packet.RoundTrip.ReadFrames.{
  read_conn_lem, read_frame, read_json_frame, read_bytes_frame, read_empty_frame,
  read_guarded-read_payload,
}

-- The length of an identifier with bytes behind it.
id_length : (id : ℕ) (js : List ℕ) → length (put_uint64 id ++ js) ≡ 8 + length js
id_length id js = omega (arith, length-append (put_uint64 id) js, length-put_uint64 id)

module _ (env : Env) (rest : List ℕ) (h : PacketHeader) {bs : List ℕ}
    (b : length bs ≤ 14 + max_decodable_packet_len) where
  received_conn :
      (f : ConnFlags) (id : ℕ) (d : ConnData)
      → IsSendable env (conn h f id d)
      → encode env (conn h f id d) ≡ ok bs
      → decode_from_reader env (bs ++ rest)
        ≡ (ok (as_received (length bs - 14) (conn h f id d)), rest)
  unfolding encode as_received read_typed
  received_conn f id d (fits, hb, hid, l) e =
      let b0 = conn_flag_byte env f in
      let (js, eq, u) = with_data-eq-ok env.conn_json h (b0 ∷ 0 ∷ put_uint64 id) d l e in
      let body : List ℕ = b0 ∷ 0 ∷ put_uint64 id ++ js in
      read_frame env h type_conn fits rest body (λ n. as_received n (conn h f id d)) eq b
        (rw (← conn_flags-conn_flag_byte env f hb, append_assoc (put_uint64 id) js rest)
          (read_conn_lem env (sent h (length body)) b0 0 id js rest d
            (omega (arith, id_length id js)) (omega (arith, ap length eq, length-framed h body)) hid
            u))

  received_session :
      (f : SessionFlags) (id : ℕ) (d : SessionData)
      → IsSendable env (session h f id d)
      → encode env (session h f id d) ≡ ok bs
      → decode_from_reader env (bs ++ rest)
        ≡ (ok (as_received (length bs - 14) (session h f id d)), rest)
  unfolding encode as_received read_typed
  received_session f id d (fits, hq, hid, l) e =
      let b1 = session_flag_byte f in
      let (js, eq, u) =
        with_data-eq-ok env.session_json h (f.priority ∷ b1 ∷ put_uint64 id) d l e in
      let body : List ℕ = f.priority ∷ b1 ∷ put_uint64 id ++ js in
      let k = sent h (length body) in
      read_frame env h type_session fits rest body (λ n. as_received n (session h f id d)) eq b
        (rw (← session_flags-session_flag_byte f hq) (
          read_payload_lem k (session_fields env k) (session k (session_flags f.priority b1) id d)
            body rest refl
            (session_fields_lem env k id js [] f.priority b1 d hid (omega (arith, id_length id js))
              u)))

  received_conn_ack :
      (ret_code id : ℕ) (d : ConnData)
      → IsSendable env (conn_ack h ret_code id d)
      → encode env (conn_ack h ret_code id d) ≡ ok bs
      → decode_from_reader env (bs ++ rest)
        ≡ (ok (as_received (length bs - 14) (conn_ack h ret_code id d)), rest)
  unfolding encode as_received read_typed
  received_conn_ack ret_code id d (fits, hid, l) e =
      let (js, eq, u) = with_data-eq-ok env.conn_json h (ret_code ∷ put_uint64 id) d l e in
      let body : List ℕ = ret_code ∷ put_uint64 id ++ js in
      let k = sent h (length body) in
      read_frame env h type_conn_ack fits rest body (λ n. as_received n (conn_ack h ret_code id d))
        eq b
        (read_payload_lem k (conn_ack_fields env k) (conn_ack k ret_code id d) body rest refl
          (conn_ack_fields_lem env k id js [] ret_code d hid (omega (arith, id_length id js)) u))

  received_dis_conn_ack :
      (ret_code : ℕ) (d : ConnData)
      → IsSendable env (dis_conn_ack h ret_code d)
      → encode env (dis_conn_ack h ret_code d) ≡ ok bs
      → decode_from_reader env (bs ++ rest)
        ≡ (ok (as_received (length bs - 14) (dis_conn_ack h ret_code d)), rest)
  unfolding encode as_received read_typed
  received_dis_conn_ack ret_code d (fits, l) e =
      let (js, eq, u) = with_data-eq-ok env.conn_json h (ret_code ∷ []) d l e in
      let body : List ℕ = ret_code ∷ js in
      let k = sent h (length body) in
      read_frame env h type_dis_conn_ack fits rest body
        (λ n. as_received n (dis_conn_ack h ret_code d)) eq b
        (read_payload_lem k (dis_conn_ack_fields env k) (dis_conn_ack k ret_code d) body rest refl
          (dis_conn_ack_fields_lem env k js [] ret_code d (omega arith) u))

  received_session_ack :
      (f : SessionFlags) (negotiate_id id : ℕ) (d : SessionData)
      → IsSendable env (session_ack h f negotiate_id id d)
      → encode env (session_ack h f negotiate_id id d) ≡ ok bs
      → decode_from_reader env (bs ++ rest)
        ≡ (ok (as_received (length bs - 14) (session_ack h f negotiate_id id d)), rest)
  unfolding encode as_received read_typed
  received_session_ack f negotiate_id id d (fits, hn, hid, l) e =
      let (js, eq, u) =
        with_data-eq-ok env.session_json h (0 ∷ 0 ∷ put_uint64 negotiate_id ++ put_uint64 id) d l
          e in
      let body : List ℕ = 0 ∷ 0 ∷ put_uint64 negotiate_id ++ (put_uint64 id ++ js) in
      let k = sent h (length body) in
      read_frame env h type_session_ack fits rest body
        (λ n. as_received n (session_ack h f negotiate_id id d))
        (eq
          ∙ ap (λ t. framed h (0 ∷ 0 ∷ t))
              (append_assoc (put_uint64 negotiate_id) (put_uint64 id) js))
        b
        (read_payload_lem k (session_ack_fields env k) (session_ack k no_flags negotiate_id id d)
          body rest refl
          (session_ack_fields_lem env k id js [] negotiate_id d hn hid
            (omega (arith, id_length negotiate_id (put_uint64 id ++ js), id_length id js)) u))

  received_request_cancel :
      (id cancel_type : ℕ)
      → IsSendable env (request_cancel h id cancel_type)
      → encode env (request_cancel h id cancel_type) ≡ ok bs
      → decode_from_reader env (bs ++ rest)
        ≡ (ok (as_received (length bs - 14) (request_cancel h id cancel_type)), rest)
  unfolding encode as_received read_typed
  received_request_cancel id cancel_type (fits, hid, hc) e =
      let body : List ℕ = put_uint64 id ++ put_uint16 cancel_type in
      let k = sent h (length body) in
      let ten : length body ≡ 10 = unfold put_uint64 put_uint16 in refl in
      let eq : bs ≡ framed h body = cc in
      read_frame env h type_request_cancel fits rest body
        (λ n. as_received n (request_cancel h id cancel_type)) eq b
        (read_guarded_lem k (request_cancel_fields k k.packet_len) (request_cancel k id cancel_type)
          body rest refl (omega arith)
          (request_cancel_fields_lem k [] id cancel_type k.packet_len hid hc ten))

-- Every sendable packet whose encoding keeps the reader's cap is decoded as `as_received` says, and
-- the reader stops where the packet ends: the bytes that follow stay for the next call.
pub decode_from_reader-encode :
    (env : Env) (p : Packet) (bs rest : List ℕ)
    → IsSendable env p
    → encode env p ≡ ok bs
    → length bs ≤ 14 + max_decodable_packet_len
    → decode_from_reader env (bs ++ rest) ≡ (ok (as_received (length bs - 14) p), rest)
unfolding encode as_received read_typed dismiss_fields dismiss_ack_fields message_fields
    message_ack_fields request_fields response_fields register_ack_fields stream_fields
    register_fields
decode_from_reader-encode env (conn h f id d) bs rest s e b = received_conn env rest h b f id d s e
decode_from_reader-encode env (conn_ack h ret_code id d) bs rest s e b =
    received_conn_ack env rest h b ret_code id d s e
decode_from_reader-encode env (dis_conn h) bs rest (fits, n) e b =
    read_empty_frame env h type_dis_conn rest dis_conn fits n (λ k r. refl) (cc)
decode_from_reader-encode env (dis_conn_ack h ret_code d) bs rest s e b =
    received_dis_conn_ack env rest h b ret_code d s e
decode_from_reader-encode env (heartbeat h) bs rest (fits, n) e b =
    read_empty_frame env h type_heartbeat rest heartbeat fits n (λ k r. refl) (cc)
decode_from_reader-encode env (heartbeat_ack h) bs rest (fits, n) e b =
    read_empty_frame env h type_heartbeat_ack rest heartbeat_ack fits n (λ k r. refl) (cc)
decode_from_reader-encode env (session h f id d) bs rest s e b =
    received_session env rest h b f id d s e
decode_from_reader-encode env (session_ack h f negotiate_id id d) bs rest s e b =
    received_session_ack env rest h b f negotiate_id id d s e
decode_from_reader-encode env (dismiss h id d) bs rest (fits, hid, l) e b =
    read_json_frame env h type_dismiss fits rest env.session_json d id dismiss (λ k r g. refl) hid l
      e b
decode_from_reader-encode env (dismiss_ack h id d) bs rest (fits, hid, l) e b =
    read_json_frame env h type_dismiss_ack fits rest env.session_json d id dismiss_ack
      (λ k r g. refl) hid l e b
decode_from_reader-encode env (message h id d) bs rest (fits, hid, l) e b =
    read_json_frame env h type_message fits rest env.message_json d id message
      (λ k r g. read_guarded-read_payload k (message_fields env k) r g) hid l e b
decode_from_reader-encode env (message_ack h id d) bs rest (fits, hid, l) e b =
    read_json_frame env h type_message_ack fits rest env.message_json d id message_ack
      (λ k r g. read_guarded-read_payload k (message_ack_fields env k) r g) hid l e b
decode_from_reader-encode env (stream h id bytes) bs rest (fits, hid) e b =
    read_bytes_frame env h type_stream fits rest id bytes stream
      (λ k r g. read_guarded-read_payload k (stream_fields k) r g) hid (cc) b
decode_from_reader-encode env (request h id d) bs rest (fits, hid, l) e b =
    read_json_frame env h type_request fits rest env.message_json d id request
      (λ k r g. read_guarded-read_payload k (request_fields env k) r g) hid l e b
decode_from_reader-encode env (response h id d) bs rest (fits, hid, l) e b =
    read_json_frame env h type_response fits rest env.message_json d id response
      (λ k r g. read_guarded-read_payload k (response_fields env k) r g) hid l e b
decode_from_reader-encode env (request_cancel h id cancel_type) bs rest s e b =
    received_request_cancel env rest h b id cancel_type s e
decode_from_reader-encode env (register h id method) bs rest (fits, hid) e b =
    read_bytes_frame env h type_register fits rest id method register
      (λ k r g. read_guarded-read_payload k (register_fields k) r g) hid (cc) b
decode_from_reader-encode env (register_ack h id d) bs rest (fits, hid, l) e b =
    read_json_frame env h type_register_ack fits rest env.register_json d id register_ack
      (λ k r g. read_guarded-read_payload k (register_ack_fields env k) r g) hid l e b
