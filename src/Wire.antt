-- ===== src/Wire.antt =====
-- What packet/*.go takes from Go itself: slices with their capacity, the big-endian integers of
-- encoding/binary, and io.ReadFull. A byte is a number below 256, a []byte a list of them.
pub mod Laws
use geminio.Common.{
  ℕ, zero, suc, ◌+◌, ◌-◌, ◌*◌, ◌/◌, ◌%◌, ◌^◌, ◌≤◌, ◌<◌, List, [], ◌∷◌, ◌++◌, ◌&&◌, length, take,
  drop, leb, ◌==◌, if◌then◌else◌, get_elem?, Option, none, some, Outcome, ok, err, panic, eof,
  unexpected_eof,
}

-- `spare` is what the array behind the slice holds between `len` and `cap`.
pub record Slice : Type 0 where
  pub elems : List ℕ
  pub spare : List ℕ

-- s[lo:hi]: the upper bound may go up to the capacity.
unfoldable pub slice : ℕ → ℕ → Slice → Outcome (List ℕ)
slice lo hi s =
    if leb lo hi && leb hi (length s.elems + length s.spare)
    then ok (take (hi - lo) (drop lo (s.elems ++ s.spare)))
    else panic

abbrev or_panic {ℓ} : {A : Type ℓ} → Option A → Outcome A
or_panic none = panic
or_panic (some a) = ok a

-- s[i]: the index must lie below the length.
unfoldable pub index : ℕ → Slice → Outcome ℕ
index i s = or_panic (get_elem? s.elems i)

-- make([]byte, n) and what fills it: capacity and length agree.
abbrev pub full : List ℕ → Slice
full bs = record { elems = bs; spare = [] }

abbrev pub byte_at : ℕ → ℕ → ℕ
byte_at v k = v / 2 ^ k % 256

unfoldable pub put_uint16 : ℕ → List ℕ
put_uint16 v = byte_at v 8 ∷ byte_at v 0 ∷ []

unfoldable pub put_uint32 : ℕ → List ℕ
put_uint32 v = byte_at v 24 ∷ byte_at v 16 ∷ byte_at v 8 ∷ byte_at v 0 ∷ []

unfoldable pub put_uint64 : ℕ → List ℕ
put_uint64 v =
    byte_at v 56
    ∷ byte_at v 48
    ∷ byte_at v 40
    ∷ byte_at v 32
    ∷ byte_at v 24
    ∷ byte_at v 16
    ∷ byte_at v 8
    ∷ byte_at v 0
    ∷ []

-- Reading panics on a slice that is too short, and ignores what follows.
unfoldable pub uint16 : List ℕ → Outcome ℕ
uint16 (a ∷ b ∷ _) = ok (a * 256 + b)
uint16 _ = panic

unfoldable pub uint32 : List ℕ → Outcome ℕ
uint32 (a ∷ b ∷ c ∷ d ∷ _) = ok (((a * 256 + b) * 256 + c) * 256 + d)
uint32 _ = panic

unfoldable pub uint64 : List ℕ → Outcome ℕ
uint64 (a ∷ b ∷ c ∷ d ∷ e ∷ f ∷ g ∷ h ∷ _) =
    ok (((((((a * 256 + b) * 256 + c) * 256 + d) * 256 + e) * 256 + f) * 256 + g) * 256 + h)
uint64 _ = panic

-- A reader holds the bytes that its peer sends before it closes the connection.
-- io.ReadFull takes n bytes, or all there are with an error.
unfoldable pub read_full : ℕ → List ℕ → Outcome (List ℕ) × List ℕ
read_full n r =
    if leb n (length r)
    then (ok (take n r), drop n r)
    else if length r == 0
    then (err eof, [])
    else (err unexpected_eof, [])
