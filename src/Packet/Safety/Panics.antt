-- ===== src/Packet/Safety/Panics.antt =====
-- Which packets make DecodeFromReader panic.
use native.Mathlib.Decide.{dec_lt}
use geminio.Common.{
  ℕ, ◌+◌, ◌-◌, ◌%◌, ◌^◌, ◌≤◌, ◌≡◌, List, ◌++◌, length, take, drop, length-take, Outcome, arith,
  Bool, false, ◌&&◌, ltb, leb, lt→ltb, le→ltb, le→leb, inl, inr, ◌∙◌, sym, Option-cases,
}
use geminio.Wire.{Slice, full}
use geminio.Packet.{Env, PacketHeader, PacketType, Packet}
use geminio.Packet.{
  type_conn, type_conn_ack, type_dis_conn, type_dis_conn_ack, type_heartbeat, type_heartbeat_ack,
  type_session, type_session_ack, type_dismiss, type_dismiss_ack, type_message, type_message_ack,
  type_stream, type_request, type_response, type_request_cancel, type_register, type_register_ack,
}
use geminio.Packet.Body.{
  unmarshalled, conn_ack_fields, dis_conn_ack_fields, session_fields, session_ack_fields,
  dismiss_fields, dismiss_ack_fields, message_fields, message_ack_fields, stream_fields,
  request_fields, response_fields, request_cancel_fields, register_fields, register_ack_fields,
}
use geminio.Packet.Reader.{
  decode_from_reader, read_typed, read_conn, read_payload, read_guarded, max_decodable_packet_len,
}
use geminio.Packet.RoundTrip.Headers.{sent, header_bytes}
use geminio.Packet.RoundTrip.Peer.{Fits}
use geminio.Packet.RoundTrip.Frames.{decode_from_reader-header_bytes}
use geminio.Packet.Safety.Reads.{panics, read_full_cases, index_total, uint64_total}
use geminio.Packet.Safety.Fields.{
  panics-id_and_data, panics-id_and_bytes, panics-conn_ack_fields, panics-dis_conn_ack_fields,
  panics-session_fields, panics-session_ack_fields, panics-request_cancel_fields,
}

-- The declared lengths that are too short for a type's fixed fields and that its decoder does not
-- refuse: a header and so many bytes stop the reading goroutine's process.
abbrev pub crashes : PacketType → ℕ → Bool
crashes type_conn_ack n = ltb n 9
crashes type_dis_conn_ack n = ltb n 1
crashes type_session n = ltb n 10
crashes type_session_ack n = ltb n 18
crashes type_dismiss n = ltb n 8
crashes type_dismiss_ack n = ltb n 8
crashes type_request_cancel n = leb 8 n && ltb n 10
crashes _ n = false

module _ (h : PacketHeader) (fields : Slice → Outcome Packet) (r : List ℕ) where
  -- A payload that has not arrived whole is an error, and no panic.
  panics-read_payload :
      (c : Bool)
      → ((body : List ℕ) → h.packet_len ≡ length body → panics (fields (full body)) ≡ c)
      → panics (read_payload h fields r).0 ≡ (leb h.packet_len (length r) && c)
  unfolding read_payload
  panics-read_payload c f = elim (read_full_cases h.packet_len r) [
    | inl (n, e) ↦ rw e (
        rw (le→leb h.packet_len (length r) n)
          (f (take h.packet_len r) (sym (length-take h.packet_len r n))))
    | inr (n, (x, e)) ↦ rw e (ground arith)
  ]

  panics-read_guarded :
      (c : Bool)
      → ((body : List ℕ)
          → 8 ≤ h.packet_len
          → h.packet_len ≡ length body
          → panics (fields (full body)) ≡ c)
      → panics (read_guarded h fields r).0
        ≡ (leb h.packet_len (length r) && (leb 8 h.packet_len && c))
  unfolding read_guarded
  panics-read_guarded c f = elim (dec_lt h.packet_len 8) [
    | yes p ↦ rw (lt→ltb h.packet_len 8 p) (ground arith)
    | no p ↦
        let g : 8 ≤ h.packet_len = omega arith in
        rw (le→ltb h.packet_len 8 g, le→leb 8 h.packet_len g)
          (panics-read_payload c (λ body. f body g))
  ]

-- A ConnPacket's reads never panic.
panics-read_conn :
    (env : Env) (h : PacketHeader) (r : List ℕ) → panics (read_conn env h r).0 ≡ false
unfolding read_conn
panics-read_conn env h r = elim (read_full_cases 2 r) [
  | inr (n, (x, e)) ↦ rw e
  | inl (n, e) ↦ rw e (
      rw ((index_total (take 2 r) 0 (omega (arith, length-take 2 r n))).1)
        (elim (read_full_cases 8 (drop 2 r)) [
          | inr (m, (x, q)) ↦ rw q
          | inl (m, q) ↦ rw q (
              rw ((uint64_total (take 8 (drop 2 r)) (length-take 8 (drop 2 r) m)).1)
                (elim (read_full_cases ((h.packet_len + 2 ^ 32 - 10) % 2 ^ 32)
                  (drop 8 (drop 2 r))) [
                    | inr (k, (x, s)) ↦ rw s
                    | inl (k, s) ↦
                        rw s
                          (elim (Option-cases (
                            env.conn_json.unmarshal
                              (take ((h.packet_len + 2 ^ 32 - 10) % 2 ^ 32) (drop 8 (drop 2 r))))) [
                                | inl u ↦ rw (u, unmarshalled)
                                | inr (d, u) ↦ rw (u, unmarshalled)
                              ])
                  ]))
        ]))
]

-- The two shapes in which most types read their payload.
module _ (h : PacketHeader) (fields : Slice → Outcome Packet) (r : List ℕ) where
  -- Guarded, with an identifier first: no panic.
  guarded_id :
      ((body : List ℕ)
        → h.packet_len ≡ length body
        → panics (fields (full body)) ≡ ltb h.packet_len 8)
      → panics (read_guarded h fields r).0 ≡ (leb h.packet_len (length r) && false)
  guarded_id f =
      panics-read_guarded h fields r false (λ body g e. f body e ∙ le→ltb h.packet_len 8 g)
      ∙ (ground arith)

panics-read_typed :
    (env : Env) (h : PacketHeader) (t : PacketType) (r : List ℕ)
    → panics (read_typed env h t r).0 ≡ (leb h.packet_len (length r) && crashes t h.packet_len)
unfolding read_typed dismiss_fields dismiss_ack_fields message_fields message_ack_fields
    request_fields response_fields register_ack_fields stream_fields register_fields
panics-read_typed env h type_conn r = panics-read_conn env h r ∙ (ground arith)
panics-read_typed env h type_conn_ack r =
    panics-read_payload h (conn_ack_fields env h) r (ltb h.packet_len 9)
      (λ body e. panics-conn_ack_fields body env h e)
panics-read_typed env h type_dis_conn r = ground arith
panics-read_typed env h type_dis_conn_ack r =
    panics-read_payload h (dis_conn_ack_fields env h) r (ltb h.packet_len 1)
      (λ body e. panics-dis_conn_ack_fields body env h e)
panics-read_typed env h type_heartbeat r = ground arith
panics-read_typed env h type_heartbeat_ack r = ground arith
panics-read_typed env h type_session r =
    panics-read_payload h (session_fields env h) r (ltb h.packet_len 10)
      (λ body e. panics-session_fields body env h e)
panics-read_typed env h type_session_ack r =
    panics-read_payload h (session_ack_fields env h) r (ltb h.packet_len 18)
      (λ body e. panics-session_ack_fields body env h e)
panics-read_typed env h type_dismiss r =
    panics-read_payload h (dismiss_fields env h) r (ltb h.packet_len 8)
      (λ body e. panics-id_and_data body env.session_json h.packet_len _ e)
panics-read_typed env h type_dismiss_ack r =
    panics-read_payload h (dismiss_ack_fields env h) r (ltb h.packet_len 8)
      (λ body e. panics-id_and_data body env.session_json h.packet_len _ e)
panics-read_typed env h type_message r =
    guarded_id h (message_fields env h) r
      (λ body e. panics-id_and_data body env.message_json h.packet_len _ e)
panics-read_typed env h type_message_ack r =
    guarded_id h (message_ack_fields env h) r
      (λ body e. panics-id_and_data body env.message_json h.packet_len _ e)
panics-read_typed env h type_stream r =
    guarded_id h (stream_fields h) r (λ body e. panics-id_and_bytes body h.packet_len _ e)
panics-read_typed env h type_register r =
    guarded_id h (register_fields h) r (λ body e. panics-id_and_bytes body h.packet_len _ e)
panics-read_typed env h type_register_ack r =
    guarded_id h (register_ack_fields env h) r
      (λ body e. panics-id_and_data body env.register_json h.packet_len _ e)
panics-read_typed env h type_request r =
    guarded_id h (request_fields env h) r
      (λ body e. panics-id_and_data body env.message_json h.packet_len _ e)
panics-read_typed env h type_response r =
    guarded_id h (response_fields env h) r
      (λ body e. panics-id_and_data body env.message_json h.packet_len _ e)
panics-read_typed env h type_request_cancel r =
    panics-read_guarded h (request_cancel_fields h h.packet_len) r (ltb h.packet_len 10)
      (λ body g e. panics-request_cancel_fields body env h e g)

-- A header of a known type that declares at most the cap, in front of any bytes: DecodeFromReader
-- panics exactly when all declared bytes arrive and `crashes` holds of the declared length.
pub panics-decode_from_reader :
    (env : Env) (h : PacketHeader) (t : PacketType) (n : ℕ) (r : List ℕ)
    → Fits h t
    → n ≤ max_decodable_packet_len
    → panics (decode_from_reader env (header_bytes h n ++ r)).0 ≡ (leb n (length r) && crashes t n)
panics-decode_from_reader env h t n r fits b =
    rw (decode_from_reader-header_bytes env h t fits n r b) (panics-read_typed env (sent h n) t r)
