-- ===== src/Packet/RoundTrip/DecodeFrames.antt =====
-- A frame as Decode takes it from a byte slice, by the shape of its payload.
use geminio.Common.{
  ℕ, ◌+◌, ◌-◌, ◌<◌, ◌≡◌, ◌^◌, refl, ap, List, [], ◌++◌, length, length-append, ok, arith, ◌∙◌,
  Outcome, append-nil, le→ltb,
}
use geminio.Wire.{Slice, put_uint64}
use geminio.Wire.Laws.{length-put_uint64}
use geminio.Packet.{Env, Json, PacketHeader, PacketType, Packet}
use geminio.Packet.Header.{encode_header, framed}
use geminio.Packet.Body.{id_and_data, id_and_bytes}
use geminio.Packet.Encode.{with_data}
use geminio.Packet.Decode.{decoded, decode, decode_typed, checked}
use geminio.Packet.RoundTrip.Headers.{
  sent, header_bytes, length-header_bytes, framed-header_bytes, encode_header-header_bytes,
}
use geminio.Packet.RoundTrip.Fields.{id_and_data_lem, id_and_bytes_lem}
use geminio.Packet.RoundTrip.Peer.{Fits}
use geminio.Packet.RoundTrip.Frames.{length-framed, with_data-eq-ok, decode-header_bytes}

-- A Decode method on a whole payload.
pub checked_ok :
    (k : PacketHeader) (s : Slice) {fields : Outcome Packet} {p : Packet}
    → k.packet_len ≡ length s.elems
    → fields ≡ ok p
    → checked k s fields ≡ decoded p k.packet_len
checked_ok k s n e = rw (le→ltb (length s.elems) k.packet_len (omega arith)) (rw e)

pub id_length : (id : ℕ) (js : List ℕ) → length (put_uint64 id ++ js) ≡ 8 + length js
id_length id js = omega (arith, length-append (put_uint64 id) js, length-put_uint64 id)

module _ (env : Env) (h : PacketHeader) (t : PacketType) (fits : Fits h t) (spare : List ℕ) where
  pub decode_frame :
      (body : List ℕ) (make : ℕ → Packet) {bs : List ℕ}
      → bs ≡ framed h body
      → length bs < 2 ^ 32
      → decode_typed env (sent h (length body)) t (record { elems = body; spare = spare })
        ≡ decoded (make (length body)) (length body)
      → decode env (record { elems = bs; spare = spare })
        ≡ decoded (make (length bs - 14)) (length bs - 14)
  decode_frame body make e b r =
      let size = ap length e ∙ length-framed h body in
      let cut : length (framed h body) - 14 ≡ length body = omega (arith, length-framed h body) in
      rw (e, cut)
        (rw (framed-header_bytes h body)
          (decode-header_bytes env h t fits body spare (omega arith) ∙ r))

  pub decode_json_frame :
      {D : Type 0} (j : Json D) (d : D) (id : ℕ) (make : PacketHeader → ℕ → D → Packet)
      {bs : List ℕ}
      → ((k : PacketHeader) (s : Slice)
          → decode_typed env k t s ≡ checked k s (id_and_data j k.packet_len s (make k)))
      → id < 2 ^ 64
      → j.Lossless d
      → with_data j h (put_uint64 id) d ≡ ok bs
      → length bs < 2 ^ 32
      → decode env (record { elems = bs; spare = spare })
        ≡ decoded (make (sent h (length bs - 14)) id d) (length bs - 14)
  decode_json_frame j d id make decodes hid l e b =
      let (js, eq, u) = with_data-eq-ok j h (put_uint64 id) d l e in
      let body : List ℕ = put_uint64 id ++ js in
      let k : PacketHeader = sent h (length body) in
      let s : Slice = record { elems = body; spare = spare } in
      decode_frame body (λ n. make (sent h n) id d) eq b
        (decodes k s ∙ checked_ok k s refl (id_and_data_lem k spare j d id js (make k) hid u))

  pub decode_bytes_frame :
      (id : ℕ) (bytes : List ℕ) (make : PacketHeader → ℕ → List ℕ → Packet) {bs : List ℕ}
      → ((k : PacketHeader) (s : Slice)
          → decode_typed env k t s ≡ checked k s (id_and_bytes k.packet_len s (make k)))
      → id < 2 ^ 64
      → bs ≡ framed h (put_uint64 id ++ bytes)
      → length bs < 2 ^ 32
      → decode env (record { elems = bs; spare = spare })
        ≡ decoded (make (sent h (length bs - 14)) id bytes) (length bs - 14)
  decode_bytes_frame id bytes make decodes hid eq b =
      let body : List ℕ = put_uint64 id ++ bytes in
      let k : PacketHeader = sent h (length body) in
      let s : Slice = record { elems = body; spare = spare } in
      decode_frame body (λ n. make (sent h n) id bytes) eq b
        (decodes k s ∙ checked_ok k s refl (id_and_bytes_lem k spare id bytes (make k) hid))

  pub decode_empty_frame :
      (make : PacketHeader → Packet) {bs : List ℕ}
      → h.packet_len ≡ 0
      → ((k : PacketHeader) (s : Slice) → decode_typed env k t s ≡ decoded (make k) 0)
      → bs ≡ encode_header h
      → decode env (record { elems = bs; spare = spare })
        ≡ decoded (make (sent h (length bs - 14))) (length bs - 14)
  decode_empty_frame make n decodes e =
      rw (e, encode_header-header_bytes h, n)
        (rw (length-header_bytes h 0, ← append-nil (header_bytes h 0))
          (decode-header_bytes env h t fits [] spare (omega arith) ∙ decodes _ _))
