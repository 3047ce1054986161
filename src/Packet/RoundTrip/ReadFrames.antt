-- ===== src/Packet/RoundTrip/ReadFrames.antt =====
-- A frame as DecodeFromReader reads it, by the shape of its payload.
use geminio.Common.{
  ℕ, ◌+◌, ◌-◌, ◌≤◌, ◌<◌, ◌≡◌, ◌%◌, ◌^◌, refl, ap, List, [], ◌∷◌, ◌++◌, append_assoc, length,
  length-append, ok, arith, ◌∙◌, Outcome, some, append-nil, le→ltb,
}
use geminio.Wire.{Slice, put_uint64, uint64, index}
use geminio.Wire.Laws.{length-put_uint64, read_full-append, uint64-put_uint64}
use geminio.Packet.{Env, Json, PacketHeader, PacketType, ConnData, Packet, conn}
use geminio.Packet.Header.{encode_header, framed}
use geminio.Packet.Body.{conn_flags, unmarshalled, id_and_data, id_and_bytes}
use geminio.Packet.Encode.{with_data}
use geminio.Packet.Reader.{
  decode_from_reader, read_typed, read_conn, read_payload, read_guarded, max_decodable_packet_len,
}
use geminio.Packet.RoundTrip.Headers.{
  sent, header_bytes, length-header_bytes, framed-header_bytes, encode_header-header_bytes,
}
use geminio.Packet.RoundTrip.Fields.{id_and_data_lem, id_and_bytes_lem}
use geminio.Packet.RoundTrip.Peer.{Fits}
use geminio.Packet.RoundTrip.Frames.{
  length-framed, decode_from_reader-header_bytes, with_data-eq-ok, read_payload_lem,
}

-- The three reads of a ConnPacket.
pub read_conn_lem :
    (env : Env) (h : PacketHeader) (b0 b1 id : ℕ) (js rest : List ℕ) (d : ConnData)
    → h.packet_len ≡ 10 + length js
    → h.packet_len < 2 ^ 32
    → id < 2 ^ 64
    → env.conn_json.unmarshal js ≡ some d
    → read_conn env h (b0 ∷ b1 ∷ (put_uint64 id ++ (js ++ rest)))
      ≡ (ok (conn h (conn_flags b0) id d), rest)
unfolding read_conn index
read_conn_lem env h b0 b1 id js rest d n b hid u =
    rw (read_full-append (b0 ∷ b1 ∷ []) (put_uint64 id ++ (js ++ rest)) 2 (omega arith)) (
      rw (read_full-append (put_uint64 id) (js ++ rest) 8 (omega (arith, length-put_uint64 id))) (
        rw plain (
          rw (read_full-append js rest ((h.packet_len + 2 ^ 32 - 10) % 2 ^ 32) (omega arith))
            (rw (u, unmarshalled)))))
  where
    plain : uint64 (put_uint64 id) ≡ ok id
    plain = rw (append-nil (put_uint64 id)) at (uint64-put_uint64 id [] hid)

-- A frame is read as its type's decoder reads the body.
module _ (env : Env) (h : PacketHeader) (t : PacketType) (fits : Fits h t) (rest : List ℕ) where
  pub read_frame :
      (body : List ℕ) (make : ℕ → Packet) {bs : List ℕ}
      → bs ≡ framed h body
      → length bs ≤ 14 + max_decodable_packet_len
      → read_typed env (sent h (length body)) t (body ++ rest) ≡ (ok (make (length body)), rest)
      → decode_from_reader env (bs ++ rest) ≡ (ok (make (length bs - 14)), rest)
  read_frame body make e b r =
      let size = ap length e ∙ length-framed h body in
      let cut : length (framed h body) - 14 ≡ length body = omega (arith, length-framed h body) in
      rw (e, cut)
        (rw (framed-header_bytes h body, append_assoc (header_bytes h (length body)) body rest)
          (decode_from_reader-header_bytes env h t fits (length body) (body ++ rest) (omega arith)
            ∙ r))

  -- A type whose decoder reads the whole body, once it has the 8 bytes of an identifier.
  pub read_json_frame :
      {D : Type 0} (j : Json D) (d : D) (id : ℕ) (make : PacketHeader → ℕ → D → Packet)
      {bs : List ℕ}
      → ((k : PacketHeader) (r : List ℕ)
          → 8 ≤ k.packet_len
          → read_typed env k t r ≡ read_payload k (λ s. id_and_data j k.packet_len s (make k)) r)
      → id < 2 ^ 64
      → j.Lossless d
      → with_data j h (put_uint64 id) d ≡ ok bs
      → length bs ≤ 14 + max_decodable_packet_len
      → decode_from_reader env (bs ++ rest) ≡ (ok (make (sent h (length bs - 14)) id d), rest)
  read_json_frame j d id make reads hid l e b =
      let (js, eq, u) = with_data-eq-ok j h (put_uint64 id) d l e in
      let body : List ℕ = put_uint64 id ++ js in
      let k : PacketHeader = sent h (length body) in
      read_frame body (λ n. make (sent h n) id d) eq b
        (reads k (body ++ rest)
            (omega (arith, length-append (put_uint64 id) js, length-put_uint64 id))
          ∙ read_payload_lem k (λ s. id_and_data j k.packet_len s (make k)) (make k id d) body rest
              refl (id_and_data_lem k [] j d id js (make k) hid u))

  -- A type that carries bytes behind the identifier.
  pub read_bytes_frame :
      (id : ℕ) (bytes : List ℕ) (make : PacketHeader → ℕ → List ℕ → Packet) {bs : List ℕ}
      → ((k : PacketHeader) (r : List ℕ)
          → 8 ≤ k.packet_len
          → read_typed env k t r ≡ read_payload k (λ s. id_and_bytes k.packet_len s (make k)) r)
      → id < 2 ^ 64
      → bs ≡ framed h (put_uint64 id ++ bytes)
      → length bs ≤ 14 + max_decodable_packet_len
      → decode_from_reader env (bs ++ rest) ≡ (ok (make (sent h (length bs - 14)) id bytes), rest)
  read_bytes_frame id bytes make reads hid eq b =
      let body : List ℕ = put_uint64 id ++ bytes in
      let k : PacketHeader = sent h (length body) in
      read_frame body (λ n. make (sent h n) id bytes) eq b
        (reads k (body ++ rest)
            (omega (arith, length-append (put_uint64 id) bytes, length-put_uint64 id))
          ∙ read_payload_lem k (λ s. id_and_bytes k.packet_len s (make k)) (make k id bytes) body
              rest refl (id_and_bytes_lem k [] id bytes (make k) hid))

pub read_guarded-read_payload :
    (h : PacketHeader) (fields : Slice → Outcome Packet) (r : List ℕ)
    → 8 ≤ h.packet_len
    → read_guarded h fields r ≡ read_payload h fields r
unfolding read_guarded
read_guarded-read_payload h fields r g = rw (le→ltb h.packet_len 8 g)

-- The packets without a payload.
pub read_empty_frame :
    (env : Env) (h : PacketHeader) (t : PacketType) (rest : List ℕ) (make : PacketHeader → Packet)
    → Fits h t
    → h.packet_len ≡ 0
    → ((k : PacketHeader) (r : List ℕ) → read_typed env k t r ≡ (ok (make k), r))
    → {bs : List ℕ} → bs ≡ encode_header h
    → decode_from_reader env (bs ++ rest) ≡ (ok (make (sent h (length bs - 14))), rest)
read_empty_frame env h t rest make fits n reads e =
    rw (e, encode_header-header_bytes h, n)
      (rw (length-header_bytes h 0)
        (decode_from_reader-header_bytes env h t fits 0 rest (omega arith) ∙ reads (sent h 0) rest))
