-- ===== src/Packet/Safety/Consumption.antt =====
-- How many bytes DecodeFromReader takes from its reader.
use native.Mathlib.Decide.{dec_lt}
use geminio.Common.{
  ℕ, ◌+◌, ◌-◌, ◌%◌, ◌^◌, ◌≤◌, ◌<◌, ◌≡◌, refl, List, [], ◌++◌, append_assoc, length, length-append,
  take, drop, length-take, take-append-drop, Outcome, ok, err, arith, ltb, lt→ltb, le→ltb, inl, inr,
  sym, ap, Option-cases, some, Bool-cases, ltb→le, Outcome-cases, Error, length-drop,
}
use geminio.Wire.{Slice, full}
use geminio.Packet.{Env, PacketHeader, PacketType, Packet, type_of_byte}
use geminio.Packet.{
  type_conn, type_conn_ack, type_dis_conn, type_dis_conn_ack, type_heartbeat, type_heartbeat_ack,
  type_session, type_session_ack, type_dismiss, type_dismiss_ack, type_message, type_message_ack,
  type_stream, type_request, type_response, type_request_cancel, type_register, type_register_ack,
}
use geminio.Packet.Header.{header_fields}
use geminio.Packet.Body.{
  unmarshalled, conn_ack_fields, dis_conn_ack_fields, session_fields, session_ack_fields,
  dismiss_fields, dismiss_ack_fields, message_fields, message_ack_fields, stream_fields,
  request_fields, response_fields, request_cancel_fields, register_fields, register_ack_fields,
}
use geminio.Packet.Reader.{
  decode_from_reader, read_body, read_typed, read_conn, read_payload, read_guarded,
  max_decodable_packet_len,
}
use geminio.Packet.RoundTrip.Headers.{header_bytes}
use geminio.Packet.RoundTrip.Peer.{Fits}
use geminio.Packet.RoundTrip.Frames.{decode_from_reader-header_bytes}
use geminio.Packet.Safety.Reads.{read_full_cases, index_total, uint64_total}

-- `r` is `n` bytes longer than its end `s`.
abbrev pub Consumes : List ℕ → List ℕ → ℕ → Type 0
Consumes r s n = (c : List ℕ) × (r ≡ c ++ s) × (length c ≡ n)

Consumes-trans :
    (r s t : List ℕ) (m n k : ℕ) → k ≡ m + n → Consumes r s m → Consumes s t n → Consumes r t k
Consumes-trans r s t m n k e (c, p, a) (d, q, b) =
    (c ++ d, rw (append_assoc c d t, ← q) p, omega (arith, length-append c d))

taken : (n : ℕ) (r : List ℕ) → n ≤ length r → Consumes r (drop n r) n
taken n r h = (take n r, sym (take-append-drop n r), length-take n r h)

-- The bytes that a type's decoder takes behind the header. Three types take none, whatever length
-- was declared; a ConnPacket's length is reduced by 10 as a uint32.
abbrev pub wire_size : PacketType → ℕ → ℕ
wire_size type_conn n = 10 + (n + 2 ^ 32 - 10) % 2 ^ 32
wire_size type_dis_conn n = 0
wire_size type_heartbeat n = 0
wire_size type_heartbeat_ack n = 0
wire_size _ n = n

module _ (h : PacketHeader) (fields : Slice → Outcome Packet) (r s : List ℕ) (p : Packet) where
  read_payload-Consumes : read_payload h fields r ≡ (ok p, s) → Consumes r s h.packet_len
  unfolding read_payload
  read_payload-Consumes e = elim (read_full_cases h.packet_len r) [
    | inl (n, q) ↦
        let end : drop h.packet_len r ≡ s = ap (λ (x : Outcome Packet × List ℕ). x.1) (rw q at e) in
        rw (← end) (taken h.packet_len r n)
    | inr (n, (x, q)) ↦ cc (rw q at e)
  ]

  read_guarded-Consumes : read_guarded h fields r ≡ (ok p, s) → Consumes r s h.packet_len
  unfolding read_guarded
  read_guarded-Consumes e = elim (dec_lt h.packet_len 8) [
    | yes q ↦ cc (rw (lt→ltb h.packet_len 8 q) at e)
    | no q ↦ read_payload-Consumes (rw (le→ltb h.packet_len 8 (omega arith)) at e)
  ]

read_conn-Consumes :
    (env : Env) (h : PacketHeader) (r s : List ℕ) (p : Packet)
    → read_conn env h r ≡ (ok p, s)
    → Consumes r s (wire_size type_conn h.packet_len)
unfolding read_conn
read_conn-Consumes env h r s p e = elim (read_full_cases 2 r) [
  | inr (n, (x, q)) ↦ cc (rw q at e)
  | inl (n, q) ↦
      let (b0, i) = index_total (take 2 r) 0 (omega (arith, length-take 2 r n)) in
      let e2 = rw i at (rw q at e) in
      elim (read_full_cases 8 (drop 2 r)) [
        | inr (n2, (x, q2)) ↦ cc (rw q2 at e2)
        | inl (n2, q2) ↦
            let (id, u) = uint64_total (take 8 (drop 2 r)) (length-take 8 (drop 2 r) n2) in
            let e3 = rw u at (rw q2 at e2) in
            elim (read_full_cases size (drop 8 (drop 2 r))) [
              | inr (n3, (x, q3)) ↦ cc (rw q3 at e3)
              | inl (n3, q3) ↦
                  let e4 = rw q3 at e3 in
                  let r2 = drop 2 r in
                  let r10 = drop 8 r2 in
                  let whole : Consumes r (drop size r10) (wire_size type_conn h.packet_len) =
                    Consumes-trans r r2 (drop size r10) 2 (8 + size) (10 + size) (omega arith)
                      (taken 2 r n)
                      (Consumes-trans r2 r10 (drop size r10) 8 size (8 + size) refl (taken 8 r2 n2)
                        (taken size r10 n3)) in
                  elim (Option-cases (env.conn_json.unmarshal (take size (drop 8 (drop 2 r))))) [
                    | inl v ↦ cc (rw (v, unmarshalled) at e4)
                    | inr (d, v) ↦
                        let end : drop size (drop 8 (drop 2 r)) ≡ s =
                          ap (λ (x : Outcome Packet × List ℕ). x.1) (rw (v, unmarshalled) at e4) in
                        rw (← end) whole
                  ]
            ]
      ]
]
  where
    size : ℕ
    size = (h.packet_len + 2 ^ 32 - 10) % 2 ^ 32

nothing_consumed : (r : List ℕ) → Consumes r r 0
nothing_consumed r = ([], refl, refl)

read_typed-Consumes :
    (env : Env) (h : PacketHeader) (t : PacketType) (r s : List ℕ) (p : Packet)
    → read_typed env h t r ≡ (ok p, s)
    → Consumes r s (wire_size t h.packet_len)
unfolding read_typed
read_typed-Consumes env h type_conn r s p e = read_conn-Consumes env h r s p e
read_typed-Consumes env h type_conn_ack r s p e =
    read_payload-Consumes h (conn_ack_fields env h) r s p e
read_typed-Consumes env h type_dis_conn r s p e =
    rw (ap (λ (x : Outcome Packet × List ℕ). x.1) e) (nothing_consumed s)
read_typed-Consumes env h type_dis_conn_ack r s p e =
    read_payload-Consumes h (dis_conn_ack_fields env h) r s p e
read_typed-Consumes env h type_heartbeat r s p e =
    rw (ap (λ (x : Outcome Packet × List ℕ). x.1) e) (nothing_consumed s)
read_typed-Consumes env h type_heartbeat_ack r s p e =
    rw (ap (λ (x : Outcome Packet × List ℕ). x.1) e) (nothing_consumed s)
read_typed-Consumes env h type_session r s p e =
    read_payload-Consumes h (session_fields env h) r s p e
read_typed-Consumes env h type_session_ack r s p e =
    read_payload-Consumes h (session_ack_fields env h) r s p e
read_typed-Consumes env h type_dismiss r s p e =
    read_payload-Consumes h (dismiss_fields env h) r s p e
read_typed-Consumes env h type_dismiss_ack r s p e =
    read_payload-Consumes h (dismiss_ack_fields env h) r s p e
read_typed-Consumes env h type_message r s p e =
    read_guarded-Consumes h (message_fields env h) r s p e
read_typed-Consumes env h type_message_ack r s p e =
    read_guarded-Consumes h (message_ack_fields env h) r s p e
read_typed-Consumes env h type_stream r s p e = read_guarded-Consumes h (stream_fields h) r s p e
read_typed-Consumes env h type_register r s p e =
    read_guarded-Consumes h (register_fields h) r s p e
read_typed-Consumes env h type_register_ack r s p e =
    read_guarded-Consumes h (register_ack_fields env h) r s p e
read_typed-Consumes env h type_request r s p e =
    read_guarded-Consumes h (request_fields env h) r s p e
read_typed-Consumes env h type_response r s p e =
    read_guarded-Consumes h (response_fields env h) r s p e
read_typed-Consumes env h type_request_cancel r s p e =
    read_guarded-Consumes h (request_cancel_fields h h.packet_len) r s p e

-- What a successful DecodeFromReader took: a header whose declared length keeps the cap and whose
-- type is known, and behind it exactly `wire_size` bytes.
pub decode_from_reader-Consumes :
    (env : Env) (r s : List ℕ) (p : Packet)
    → decode_from_reader env r ≡ (ok p, s)
    → (h : PacketHeader) × (t : PacketType) × (header_fields (full (take 14 r)) ≡ ok h)
      × (type_of_byte h.typ ≡ some t)
      × (h.packet_len ≤ max_decodable_packet_len)
      × Consumes r s (14 + wire_size t h.packet_len)
unfolding decode_from_reader read_body
decode_from_reader-Consumes env r s p e = elim (read_full_cases 14 r) [
  | inr (n, (x, q)) ↦ cc (rw q at e)
  | inl (n, q) ↦
      let e1 = rw q at e in
      elim (Outcome-cases (header_fields (full (take 14 r)))) [
        | inr (inl (x, f)) ↦ cc (rw f at e1)
        | inr (inr f) ↦ cc (rw f at e1)
        | inl (h, f) ↦
            let e2 = rw f at e1 in
            elim (Bool-cases (ltb max_decodable_packet_len h.packet_len)) [
              | inl large ↦ cc (rw large at e2)
              | inr small ↦ elim (Option-cases (type_of_byte h.typ)) [
                | inl u ↦ cc (rw u at (rw small at e2))
                | inr (t, u) ↦ (
                  h,
                  t,
                  f,
                  u,
                  ltb→le max_decodable_packet_len h.packet_len small,
                  Consumes-trans r (drop 14 r) s 14 (wire_size t h.packet_len) _ refl (taken 14 r n)
                      (read_typed-Consumes env h t (drop 14 r) s p (rw u at (rw small at e2))),
                )
              ]
            ]
      ]
]

-- A ConnPacket that declares fewer than 10 bytes keeps the cap, and yet its decoder wants more than
-- 4 GiB: on any shorter input it takes every byte there is and fails.
pub decode_from_reader_conn_underflow :
    (env : Env) (h : PacketHeader) (n : ℕ) (r : List ℕ)
    → Fits h type_conn
    → n < 10
    → length r < 2 ^ 32 + n
    → (x : Error) × (decode_from_reader env (header_bytes h n ++ r) ≡ (err x, []))
unfolding read_typed read_conn
decode_from_reader_conn_underflow env h n r fits b short =
    rw (decode_from_reader-header_bytes env h type_conn fits n r (omega arith))
      (elim (read_full_cases 2 r) [
        | inr (m, (x, q)) ↦ (x, rw q)
        | inl (m, q) ↦ rw q (
            rw ((index_total (take 2 r) 0 (omega (arith, length-take 2 r m))).1)
              (elim (read_full_cases 8 (drop 2 r)) [
                | inr (m2, (x, q2)) ↦ (x, rw q2)
                | inl (m2, q2) ↦ rw q2 (
                    rw ((uint64_total (take 8 (drop 2 r)) (length-take 8 (drop 2 r) m2)).1)
                      (elim (read_full_cases ((n + 2 ^ 32 - 10) % 2 ^ 32) (drop 8 (drop 2 r))) [
                        | inr (m3, (x, q3)) ↦ (x, rw q3)
                        | inl (m3, q3) ↦
                            absurd (omega (arith, length-drop 8 (drop 2 r), length-drop 2 r))
                      ]))
              ]))
      ])
