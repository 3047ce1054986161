-- ===== src/Packet/RoundTrip/Fields.antt =====
-- The payload of each packet struct, written and read.
use geminio.Common.{
  ℕ, ◌+◌, ◌^◌, ◌<◌, ◌≡◌, List, [], ◌++◌, append_assoc, append-nil, length, length-append, ok, arith,
  some,
}
use geminio.Wire.{Slice, slice, uint16, put_uint16, put_uint64}
use geminio.Wire.Laws.{uint16-put_uint16, slice-middle, uint64_at, length-put_uint64}
use geminio.Packet.{Json, PacketHeader, Packet, request_cancel}
use geminio.Packet.Body.{id_at, data_at, id_and_data, id_and_bytes, request_cancel_fields}

pub id_at_lem :
    (s : Slice) (pre : List ℕ) (v : ℕ) (post : List ℕ) (lo hi : ℕ)
    → s.elems ++ s.spare ≡ pre ++ (put_uint64 v ++ post)
    → lo ≡ length pre
    → hi ≡ lo + 8
    → v < 2 ^ 64
    → id_at lo hi s ≡ ok v
id_at_lem s pre v post lo hi e l h b = let r = uint64_at s pre v post lo hi e l h b in cc (r.0, r.1)

pub data_at_lem :
    {D : Type 0} (j : Json D) (d : D) (s : Slice) (pre js post : List ℕ) (lo hi : ℕ)
    → s.elems ++ s.spare ≡ pre ++ (js ++ post)
    → lo ≡ length pre
    → hi ≡ lo + length js
    → j.unmarshal js ≡ some d
    → data_at j lo hi s ≡ ok d
data_at_lem j d s pre js post lo hi e l h u = cc (slice-middle s pre js post lo hi e l h)

module _ (h : PacketHeader) (spare : List ℕ) where
  -- An identifier and a JSON payload: seven of the structs.
  pub id_and_data_lem :
      {D : Type 0} (j : Json D) (d : D) (id : ℕ) (js : List ℕ) (make : ℕ → D → Packet)
      → id < 2 ^ 64
      → j.unmarshal js ≡ some d
      → id_and_data j
          (length (put_uint64 id ++ js))
          (record { elems = put_uint64 id ++ js; spare = spare })
          make
        ≡ ok (make id d)
  id_and_data_lem j d id js make hid u = cc (first, second)
    where
      s : Slice
      s = record { elems = put_uint64 id ++ js; spare = spare }

      first : id_at 0 8 s ≡ ok id
      first =
          id_at_lem s [] id (js ++ spare) 0 8 (simp append_assoc) (omega arith) (omega arith) hid

      second : data_at j 8 (length (put_uint64 id ++ js)) s ≡ ok d
      second =
          data_at_lem j d s (put_uint64 id) js spare 8 _ (simp append_assoc)
            (omega (arith, length-put_uint64 id))
            (omega (arith, length-append (put_uint64 id) js, length-put_uint64 id)) u

  -- An identifier and the bytes behind it: StreamPacket and RegisterPacket.
  pub id_and_bytes_lem :
      (id : ℕ) (bs : List ℕ) (make : ℕ → List ℕ → Packet)
      → id < 2 ^ 64
      → id_and_bytes
          (length (put_uint64 id ++ bs))
          (record { elems = put_uint64 id ++ bs; spare = spare })
          make
        ≡ ok (make id bs)
  id_and_bytes_lem id bs make hid = cc (first, second)
    where
      s : Slice
      s = record { elems = put_uint64 id ++ bs; spare = spare }

      first : id_at 0 8 s ≡ ok id
      first =
          id_at_lem s [] id (bs ++ spare) 0 8 (simp append_assoc) (omega arith) (omega arith) hid

      second : slice 8 (length (put_uint64 id ++ bs)) s ≡ ok bs
      second =
          slice-middle s (put_uint64 id) bs spare 8 _ (simp append_assoc)
            (omega (arith, length-put_uint64 id))
            (omega (arith, length-append (put_uint64 id) bs, length-put_uint64 id))

  pub request_cancel_fields_lem :
      (id cancel_type hi : ℕ)
      → id < 2 ^ 64
      → cancel_type < 2 ^ 16
      → hi ≡ 10
      → request_cancel_fields h hi
          (record { elems = put_uint64 id ++ put_uint16 cancel_type; spare = spare })
        ≡ ok (request_cancel h id cancel_type)
  unfolding request_cancel_fields
  request_cancel_fields_lem id cancel_type hi hid hc e = cc (first, second, third)
    where
      s : Slice
      s = record { elems = put_uint64 id ++ put_uint16 cancel_type; spare = spare }

      first : id_at 0 8 s ≡ ok id
      first =
          id_at_lem s [] id (put_uint16 cancel_type ++ spare) 0 8 (simp append_assoc) (omega arith)
            (omega arith) hid

      second : slice 8 hi s ≡ ok (put_uint16 cancel_type)
      second =
          slice-middle s (put_uint64 id) (put_uint16 cancel_type) spare 8 hi (simp append_assoc)
            (omega (arith, length-put_uint64 id)) (rw e (unfold put_uint16 in omega arith))

      third : uint16 (put_uint16 cancel_type) ≡ ok cancel_type
      third = rw (append-nil (put_uint16 cancel_type)) at (uint16-put_uint16 cancel_type [] hc)
