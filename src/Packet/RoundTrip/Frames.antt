-- ===== src/Packet/RoundTrip/Frames.antt =====
-- A framed body, as both decoders take it apart.
use geminio.Common.{
  ℕ, ◌+◌, ◌-◌, ◌%◌, ◌^◌, ◌≤◌, ◌<◌, ◌≡◌, List, [], ◌++◌, append-nil, length, length-append,
  Option-cases, inl, inr, drop-append, Outcome, ok, some, arith, le→ltb,
}
use geminio.Wire.{Slice, full}
use geminio.Wire.Laws.{read_full-append}
use geminio.Packet.{Env, Json, PacketHeader, PacketType, Packet}
use geminio.Packet.Header.{framed, header_fields, decode_header}
use geminio.Packet.Encode.{with_data}
use geminio.Packet.Decode.{decode, decode_typed}
use geminio.Packet.Reader.{
  decode_from_reader, read_body, read_typed, read_payload, read_guarded, max_decodable_packet_len,
}
use geminio.Packet.RoundTrip.Headers.{
  sent, header_bytes, length-header_bytes, framed-header_bytes, header_fields-header_bytes,
  type_of_byte-type_byte,
}
use geminio.Packet.RoundTrip.Peer.{Fits}

pub length-framed : (h : PacketHeader) (body : List ℕ) → length (framed h body) ≡ 14 + length body
length-framed h body = rw (framed-header_bytes h body) (
    omega (
      arith,
      length-append (header_bytes h (length body)) body,
      length-header_bytes h (length body),
    ))

module _ (env : Env) (h : PacketHeader) (t : PacketType) (fits : Fits h t) where
  -- A header in front of `body ++ rest` leads the reader to its type's decoder.
  pub decode_from_reader-header_bytes :
      (n : ℕ) (rest : List ℕ)
      → n ≤ max_decodable_packet_len
      → decode_from_reader env (header_bytes h n ++ rest) ≡ read_typed env (sent h n) t rest
  unfolding decode_from_reader read_body
  decode_from_reader-header_bytes n rest b =
      rw (read_full-append (header_bytes h n) rest 14 (omega (arith, length-header_bytes h n)))
        (rw (header) (rw (le→ltb max_decodable_packet_len n b, fits.0, type_of_byte-type_byte t)))
    where
      header : header_fields (full (header_bytes h n)) ≡ ok (sent h n)
      header =
          rw (append-nil (header_bytes h n)) at
            (header_fields-header_bytes h n [] [] fits.1 (omega arith))

  -- The same of a byte slice that holds the whole frame.
  pub decode-header_bytes :
      (body spare : List ℕ)
      → length body < 2 ^ 32
      → decode env (record { elems = header_bytes h (length body) ++ body; spare = spare })
        ≡ decode_typed env (sent h (length body)) t (record { elems = body; spare = spare })
  unfolding decode
  decode-header_bytes body spare b =
      rw (header, decode)
        (rw (le→ltb ((length whole - 14) % 2 ^ 32) (length body) (omega (arith, size))) (
          rw (fits.0, type_of_byte-type_byte t)
            (rw (
              drop-append (header_bytes h (length body)) body 14
                (omega (arith, length-header_bytes h (length body)))))))
    where
      whole : List ℕ
      whole = header_bytes h (length body) ++ body

      size : length whole ≡ 14 + length body
      size = omega (
        arith,
        length-append (header_bytes h (length body)) body,
        length-header_bytes h (length body),
      )

      header : decode_header (record { elems = whole; spare = spare }) ≡ ok (sent h (length body))
      header =
          unfold decode_header in
          rw (le→ltb (length whole) 14 (omega (arith, size)))
            (header_fields-header_bytes h (length body) body spare fits.1 b)

-- A successful marshalled encoding is a frame around the fields and the JSON text.
pub with_data-eq-ok :
    {D : Type 0} (j : Json D) (h : PacketHeader) (fields : List ℕ) (d : D) {bs : List ℕ}
    → j.Lossless d
    → with_data j h fields d ≡ ok bs
    → (js : List ℕ) × (bs ≡ framed h (fields ++ js)) × (j.unmarshal js ≡ some d)
with_data-eq-ok j h fields d l e = elim (Option-cases (j.marshal d)) [
  | inl m ↦ cc
  | inr (js, m) ↦ (js, cc, j.unmarshal-marshal d js l m)
]

module _ (h : PacketHeader) (fields : Slice → Outcome Packet) (p : Packet)
    (body rest : List ℕ) where
  pub read_payload_lem :
      h.packet_len ≡ length body
      → fields (full body) ≡ ok p
      → read_payload h fields (body ++ rest) ≡ (ok p, rest)
  unfolding read_payload
  read_payload_lem n e = rw (read_full-append body rest h.packet_len n) (rw e)

  pub read_guarded_lem :
      h.packet_len ≡ length body
      → 8 ≤ length body
      → fields (full body) ≡ ok p
      → read_guarded h fields (body ++ rest) ≡ (ok p, rest)
  unfolding read_guarded
  read_guarded_lem n b e = rw (le→ltb h.packet_len 8 (omega arith)) (read_payload_lem n e)
