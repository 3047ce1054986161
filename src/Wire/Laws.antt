-- ===== src/Wire/Laws.antt =====
-- Laws of the big-endian integers, of slices and of io.ReadFull.
use geminio.Common.{
  ℕ, ◌^◌, ◌<◌, ◌≡◌, refl, List, [], append-nil, ◌++◌, length, ◌-◌, ◌+◌, ◌≤◌, ◌⊎◌, ap, panic,
  take-append, drop-append, length-append, le→leb, arith, ok,
}
use geminio.Wire.{
  Slice, slice, put_uint16, put_uint32, put_uint64, uint16, uint32, uint64, read_full,
}

pub uint16-put_uint16 : (v : ℕ) (rest : List ℕ) → v < 2 ^ 16 → uint16 (put_uint16 v ++ rest) ≡ ok v
unfolding uint16 put_uint16
uint16-put_uint16 v rest h = ground arith

pub uint32-put_uint32 : (v : ℕ) (rest : List ℕ) → v < 2 ^ 32 → uint32 (put_uint32 v ++ rest) ≡ ok v
unfolding uint32 put_uint32
uint32-put_uint32 v rest h = ground arith

pub uint64-put_uint64 : (v : ℕ) (rest : List ℕ) → v < 2 ^ 64 → uint64 (put_uint64 v ++ rest) ≡ ok v
unfolding uint64 put_uint64
uint64-put_uint64 v rest h = ground arith

pub length-put_uint64 : (v : ℕ) → length (put_uint64 v) ≡ 8
unfolding put_uint64
length-put_uint64 v = refl

pub length-put_uint32 : (v : ℕ) → length (put_uint32 v) ≡ 4
unfolding put_uint32
length-put_uint32 v = refl

pub read_full-append :
    (xs ys : List ℕ) (n : ℕ) → n ≡ length xs → read_full n (xs ++ ys) ≡ (ok xs, ys)
unfolding read_full
read_full-append xs ys n e = rw (
  le→leb n (length (xs ++ ys)) (omega (arith, length-append xs ys)),
  take-append xs ys n e,
  drop-append xs ys n e,
)

-- A slice that covers the middle one of three parts of the array.
pub slice-middle :
    (s : Slice) (pre mid post : List ℕ) (lo hi : ℕ)
    → s.elems ++ s.spare ≡ pre ++ (mid ++ post)
    → lo ≡ length pre
    → hi ≡ lo + length mid
    → slice lo hi s ≡ ok mid
unfolding slice
slice-middle s pre mid post lo hi e l h =
    rw (le→leb lo hi (omega arith), le→leb hi (length s.elems + length s.spare) fits)
      (rw (e, drop-append pre (mid ++ post) lo l, take-append mid post (hi - lo) (omega arith)))
  where
    fits : hi ≤ length s.elems + length s.spare
    fits = omega (
      arith,
      ap length e,
      length-append s.elems s.spare,
      length-append pre (mid ++ post),
      length-append mid post,
    )

-- A slice whose upper bound is past the capacity panics, and so does one with crossed bounds.
pub slice_panics :
    (s : Slice) (lo hi : ℕ)
    → (hi < lo) ⊎ (length s.elems + length s.spare < hi)
    → slice lo hi s ≡ panic
unfolding slice
slice_panics s lo hi h = ground arith

-- An identifier of 8 bytes inside an array, and a 4-byte length.
module _ (s : Slice) (pre : List ℕ) (v : ℕ) (post : List ℕ) (lo hi : ℕ) where
  pub uint64_at :
      s.elems ++ s.spare ≡ pre ++ (put_uint64 v ++ post)
      → lo ≡ length pre
      → hi ≡ lo + 8
      → v < 2 ^ 64
      → (slice lo hi s ≡ ok (put_uint64 v)) × (uint64 (put_uint64 v) ≡ ok v)
  uint64_at e l h b = (
    slice-middle s pre (put_uint64 v) post lo hi e l (omega (arith, length-put_uint64 v)),
    rw (append-nil (put_uint64 v)) at (uint64-put_uint64 v [] b),
  )

  pub uint32_at :
      s.elems ++ s.spare ≡ pre ++ (put_uint32 v ++ post)
      → lo ≡ length pre
      → hi ≡ lo + 4
      → v < 2 ^ 32
      → (slice lo hi s ≡ ok (put_uint32 v)) × (uint32 (put_uint32 v) ≡ ok v)
  uint32_at e l h b = (
    slice-middle s pre (put_uint32 v) post lo hi e l (omega (arith, length-put_uint32 v)),
    rw (append-nil (put_uint32 v)) at (uint32-put_uint32 v [] b),
  )
