-- ===== src/Packet/Safety/Sizes.antt =====
-- The length of a decoded packet.
use geminio.Common.{
  zero, suc, [], ◌∷◌, ◌++◌, ◌+◌, ◌-◌, length, leb, ◌&&◌, each-Gives, bind-Gives, ℕ, ◌≤◌, ◌≡◌, refl,
  List, Outcome, Gives, arith, weaken-Gives, Outcome-cases, Bool-cases, Option-cases, inl, inr,
  ltb→le, take, drop, ltb,
}
use geminio.Wire.{slice, Slice, full, read_full}
use geminio.Packet.{
  Env, stream, register, type_of_byte, PacketHeader, PacketType, Packet, type_conn, type_conn_ack,
  type_dis_conn, type_dis_conn_ack, type_heartbeat, type_heartbeat_ack, type_session,
  type_session_ack, type_dismiss, type_dismiss_ack, type_message, type_message_ack, type_stream,
  type_register, type_register_ack, type_request, type_response, type_request_cancel,
}
use geminio.Packet.Ids.{packet_length}
use geminio.Packet.Header.{header_fields}
use geminio.Packet.Body.{
  id_and_bytes, id_at, conn_ack_fields, dis_conn_ack_fields, session_fields, session_ack_fields,
  dismiss_fields, dismiss_ack_fields, message_fields, message_ack_fields, request_fields,
  response_fields, register_ack_fields, stream_fields, register_fields, request_cancel_fields,
}
use geminio.Packet.Reader.{
  read_conn, read_payload, read_guarded, read_typed, decode_from_reader, read_body,
  max_decodable_packet_len,
}
use geminio.Packet.Safety.Reads.{read_full_cases}

-- Every packet that `o` returns has at most the length that `h` declares.
abbrev IsSized : PacketHeader → Outcome Packet → Type 0
IsSized h = Gives (λ p. packet_length p ≤ h.packet_len)

length-take_le : (n : ℕ) (xs : List ℕ) → length (take n xs) ≤ n
length-take_le zero xs = omega arith
length-take_le (suc n) [] = omega arith
length-take_le (suc n) (x ∷ xs) = omega (arith, length-take_le n xs)

slice-Fits : (lo hi : ℕ) (s : Slice) → Gives (λ bs. length bs ≤ hi) (slice lo hi s)
unfolding slice
slice-Fits lo hi s = elim (Bool-cases (leb lo hi && leb hi (length s.elems + length s.spare))) [
  | inl q ↦ rw q (omega (arith, length-take_le (hi - lo) (drop lo (s.elems ++ s.spare))))
  | inr q ↦ rw q tt
]

-- The decoders of the two packets whose Length is that of their bytes.
id_and_bytes-IsSized :
    (h : PacketHeader) (make : ℕ → List ℕ → Packet) (s : Slice)
    → ((id : ℕ) (bs : List ℕ) → packet_length (make id bs) ≡ length bs)
    → IsSized h (id_and_bytes h.packet_len s make)
id_and_bytes-IsSized h make s same = each-Gives _ (id_at 0 8 s) _ (λ id.
    bind-Gives (λ bs. length bs ≤ h.packet_len) _ (slice 8 h.packet_len s) _
      (slice-Fits 8 h.packet_len s) (λ bs l. omega (arith, l, same id bs)))

module _ (env : Env) (h : PacketHeader) where
  conn_ack-IsSized : (s : Slice) → IsSized h (conn_ack_fields env h s)
  unfolding conn_ack_fields packet_length
  conn_ack-IsSized s = ground arith

  dis_conn_ack-IsSized : (s : Slice) → IsSized h (dis_conn_ack_fields env h s)
  unfolding dis_conn_ack_fields packet_length
  dis_conn_ack-IsSized s = ground arith

  session-IsSized : (s : Slice) → IsSized h (session_fields env h s)
  unfolding session_fields packet_length
  session-IsSized s = ground arith

  session_ack-IsSized : (s : Slice) → IsSized h (session_ack_fields env h s)
  unfolding session_ack_fields packet_length
  session_ack-IsSized s = ground arith

  dismiss-IsSized : (s : Slice) → IsSized h (dismiss_fields env h s)
  unfolding dismiss_fields packet_length
  dismiss-IsSized s = ground arith

  dismiss_ack-IsSized : (s : Slice) → IsSized h (dismiss_ack_fields env h s)
  unfolding dismiss_ack_fields packet_length
  dismiss_ack-IsSized s = ground arith

  message-IsSized : (s : Slice) → IsSized h (message_fields env h s)
  unfolding message_fields packet_length
  message-IsSized s = ground arith

  message_ack-IsSized : (s : Slice) → IsSized h (message_ack_fields env h s)
  unfolding message_ack_fields packet_length
  message_ack-IsSized s = ground arith

  request-IsSized : (s : Slice) → IsSized h (request_fields env h s)
  unfolding request_fields packet_length
  request-IsSized s = ground arith

  response-IsSized : (s : Slice) → IsSized h (response_fields env h s)
  unfolding response_fields packet_length
  response-IsSized s = ground arith

  register_ack-IsSized : (s : Slice) → IsSized h (register_ack_fields env h s)
  unfolding register_ack_fields packet_length
  register_ack-IsSized s = ground arith

  stream-IsSized : (s : Slice) → IsSized h (stream_fields h s)
  unfolding stream_fields packet_length
  stream-IsSized s = id_and_bytes-IsSized h (stream h) s (λ id bs. refl)

  register-IsSized : (s : Slice) → IsSized h (register_fields h s)
  unfolding register_fields packet_length
  register-IsSized s = id_and_bytes-IsSized h (register h) s (λ id bs. refl)

  request_cancel-IsSized : (n : ℕ) (s : Slice) → IsSized h (request_cancel_fields h n s)
  unfolding request_cancel_fields packet_length
  request_cancel-IsSized n s = ground arith

  read_payload-IsSized :
      (f : Slice → Outcome Packet) (r : List ℕ)
      → ((s : Slice) → IsSized h (f s))
      → IsSized h (read_payload h f r).0
  unfolding read_payload
  read_payload-IsSized f r k = elim (Outcome-cases (read_full h.packet_len r).0) [
    | inl (bs, q) ↦ rw q (k (full bs))
    | inr (inl (e, q)) ↦ rw q tt
    | inr (inr q) ↦ rw q tt
  ]

  read_guarded-IsSized :
      (f : Slice → Outcome Packet) (r : List ℕ)
      → ((s : Slice) → IsSized h (f s))
      → IsSized h (read_guarded h f r).0
  unfolding read_guarded
  read_guarded-IsSized f r k = elim (Bool-cases (ltb h.packet_len 8)) [
    | inl q ↦ rw q tt
    | inr q ↦ rw q (read_payload-IsSized f r k)
  ]

  read_conn-IsSized : (r : List ℕ) → IsSized h (read_conn env h r).0
  unfolding read_conn packet_length
  read_conn-IsSized r = ground arith

  read_typed-IsSized : (t : PacketType) (r : List ℕ) → IsSized h (read_typed env h t r).0
  unfolding read_typed packet_length
  read_typed-IsSized type_conn r = read_conn-IsSized r
  read_typed-IsSized type_conn_ack r =
      read_payload-IsSized (conn_ack_fields env h) r conn_ack-IsSized
  read_typed-IsSized type_dis_conn r = omega arith
  read_typed-IsSized type_dis_conn_ack r =
      read_payload-IsSized (dis_conn_ack_fields env h) r dis_conn_ack-IsSized
  read_typed-IsSized type_heartbeat r = omega arith
  read_typed-IsSized type_heartbeat_ack r = omega arith
  read_typed-IsSized type_session r = read_payload-IsSized (session_fields env h) r session-IsSized
  read_typed-IsSized type_session_ack r =
      read_payload-IsSized (session_ack_fields env h) r session_ack-IsSized
  read_typed-IsSized type_dismiss r = read_payload-IsSized (dismiss_fields env h) r dismiss-IsSized
  read_typed-IsSized type_dismiss_ack r =
      read_payload-IsSized (dismiss_ack_fields env h) r dismiss_ack-IsSized
  read_typed-IsSized type_message r = read_guarded-IsSized (message_fields env h) r message-IsSized
  read_typed-IsSized type_message_ack r =
      read_guarded-IsSized (message_ack_fields env h) r message_ack-IsSized
  read_typed-IsSized type_stream r = read_guarded-IsSized (stream_fields h) r stream-IsSized
  read_typed-IsSized type_register r = read_guarded-IsSized (register_fields h) r register-IsSized
  read_typed-IsSized type_register_ack r =
      read_guarded-IsSized (register_ack_fields env h) r register_ack-IsSized
  read_typed-IsSized type_request r = read_guarded-IsSized (request_fields env h) r request-IsSized
  read_typed-IsSized type_response r =
      read_guarded-IsSized (response_fields env h) r response-IsSized
  read_typed-IsSized type_request_cancel r =
      read_guarded-IsSized (request_cancel_fields h h.packet_len) r
        (request_cancel-IsSized h.packet_len)

  read_body-Fits :
      (r : List ℕ) → Gives (λ p. packet_length p ≤ max_decodable_packet_len) (read_body env h r).0
  unfolding read_body
  read_body-Fits r = elim (Bool-cases (ltb max_decodable_packet_len h.packet_len)) [
    | inl q ↦ rw q tt
    | inr q ↦ elim (Option-cases (type_of_byte h.typ)) [
      | inl u ↦ rw (q, u) tt
      | inr (t, u) ↦
          rw (q, u)
            (weaken-Gives (λ p. packet_length p ≤ h.packet_len) _ (read_typed env h t r).0
              (λ p e. omega (arith, e, ltb→le max_decodable_packet_len h.packet_len q))
              (read_typed-IsSized t r))
    ]
  ]

-- No packet that DecodeFromReader returns has a Length above the cap.
pub decode_from_reader-Fits :
    (env : Env) (r : List ℕ)
    → Gives (λ p. packet_length p ≤ max_decodable_packet_len) (decode_from_reader env r).0
unfolding decode_from_reader
decode_from_reader-Fits env r = elim (read_full_cases 14 r) [
  | inr (n, (x, q)) ↦ rw q tt
  | inl (n, q) ↦ elim (Outcome-cases (header_fields (full (take 14 r)))) [
    | inr (inl (x, f)) ↦ rw q (rw f tt)
    | inr (inr f) ↦ rw q (rw f tt)
    | inl (h, f) ↦ rw q (rw f (read_body-Fits env h (drop 14 r)))
  ]
]
