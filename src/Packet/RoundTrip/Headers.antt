-- ===== src/Packet/RoundTrip/Headers.antt =====
-- The 14 bytes of a header, written and read.
use geminio.Common.{
  ℕ, ◌^◌, ◌<◌, ◌≡◌, refl, List, [], ◌∷◌, ◌++◌, append_assoc, length, ok, arith, some,
}
use geminio.Wire.{Slice, index, slice, uint32, uint64, put_uint32, put_uint64}
use geminio.Wire.Laws.{uint32_at, uint64_at, length-put_uint64}
use geminio.Packet.{PacketHeader, PacketType, type_byte, type_of_byte}
use geminio.Packet.{type_conn}
use geminio.Packet.Header.{encode_header, header_fields, framed}

-- The header as the peer sees it: with the length of the body, and without `Cnss`.
abbrev pub sent : PacketHeader → ℕ → PacketHeader
sent h n = record h { packet_len = n; cnss = 0 }

-- The header's bytes for a body of `n` bytes.
abbrev pub header_bytes : PacketHeader → ℕ → List ℕ
header_bytes h n = h.version ∷ h.typ ∷ put_uint64 h.packet_id ++ put_uint32 n

pub length-header_bytes : (h : PacketHeader) (n : ℕ) → length (header_bytes h n) ≡ 14
unfolding put_uint64 put_uint32
length-header_bytes h n = refl

pub framed-header_bytes :
    (h : PacketHeader) (body : List ℕ) → framed h body ≡ header_bytes h (length body) ++ body
unfolding framed encode_header put_uint64
framed-header_bytes h body = refl

pub encode_header-header_bytes : (h : PacketHeader) → encode_header h ≡ header_bytes h h.packet_len
unfolding encode_header
encode_header-header_bytes h = refl

-- The decoders read the header back, whatever bytes follow it.
pub header_fields-header_bytes :
    (h : PacketHeader) (n : ℕ) (rest spare : List ℕ)
    → h.packet_id < 2 ^ 64
    → n < 2 ^ 32
    → header_fields (record { elems = header_bytes h n ++ rest; spare = spare }) ≡ ok (sent h n)
unfolding header_fields index
header_fields-header_bytes h n rest spare hi hn = cc (id_part.0, id_part.1, len_part.0, len_part.1)
  where
    s : Slice
    s = record { elems = header_bytes h n ++ rest; spare = spare }

    id_part :
        (slice 2 10 s ≡ ok (put_uint64 h.packet_id))
        × (uint64 (put_uint64 h.packet_id) ≡ ok h.packet_id)
    id_part =
        uint64_at s (h.version ∷ h.typ ∷ []) h.packet_id (put_uint32 n ++ (rest ++ spare)) 2 10
          (simp append_assoc) (omega arith) (omega arith) hi

    len_part : (slice 10 14 s ≡ ok (put_uint32 n)) × (uint32 (put_uint32 n) ≡ ok n)
    len_part =
        uint32_at s (h.version ∷ h.typ ∷ put_uint64 h.packet_id) n (rest ++ spare) 10 14
          (simp append_assoc) (omega (arith, length-put_uint64 h.packet_id)) (omega arith) hn

pub type_of_byte-type_byte : (t : PacketType) → type_of_byte (type_byte t) ≡ some t
unfolding type_of_byte type_byte
type_of_byte-type_byte type_conn = refl
type_of_byte-type_byte _ = refl
