-- ===== src/Packet/Header.antt =====
-- PacketHeader.Encode, Decode and DecodeFromReader of packet/packet.go.
use geminio.Common.{
  ℕ, List, ◌∷◌, ◌++◌, length, ltb, if◌then◌else◌, Outcome, ok, err, incomplete_packet, take, ◌>>=◌,
}
use geminio.Wire.{Slice, index, slice, uint32, uint64, put_uint32, put_uint64}
use geminio.Packet.{PacketHeader}

unfoldable pub encode_header : PacketHeader → List ℕ
encode_header h = h.version ∷ h.typ ∷ put_uint64 h.packet_id ++ put_uint32 h.packet_len

-- The reads of both decoders; the header has no `Cnss` yet.
unfoldable pub header_fields : Slice → Outcome PacketHeader
header_fields s = do
  version ← index 0 s
  typ ← index 1 s
  id_bytes ← slice 2 10 s
  packet_id ← uint64 id_bytes
  len_bytes ← slice 10 14 s
  packet_len ← uint32 len_bytes
  ok (record {
    version = version;
    typ = typ;
    packet_id = packet_id;
    packet_len = packet_len;
    cnss = 0;
  })

unfoldable pub decode_header : Slice → Outcome PacketHeader
decode_header s = if ltb (length s.elems) 14 then err incomplete_packet else header_fields s

-- `binary.BigEndian.PutUint32(hdr[10:14], uint32(length))`, and the body behind it.
unfoldable pub framed : PacketHeader → List ℕ → List ℕ
framed h body = (take 10 (encode_header h) ++ put_uint32 (length body)) ++ body
