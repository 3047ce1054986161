-- ===== src/Packet/Safety/Reads.antt =====
-- The single reads of the payload decoders on a buffer of known length.
use geminio.Common.{
  ℕ, zero, suc, ◌+◌, ◌-◌, ◌≤◌, ◌<◌, ◌≡◌, refl, List, [], ◌∷◌, length, take, drop, get_elem?,
  length-take, length-drop, append-nil, Bool-cases, leb, ◌==◌, Error, eof, unexpected_eof, Outcome,
  ok, err, json_error, panic, arith, Bool, true, false, ◌⊎◌, inl, inr, le→leb, Option-cases, none,
  some,
}
use geminio.Wire.{read_full, full, index, slice, uint16, uint64}
use geminio.Wire.Laws.{slice_panics}
use geminio.Packet.{Json}
use geminio.Packet.Body.{id_at, data_at, unmarshalled}

abbrev pub panics {ℓ} : {A : Type ℓ} → Outcome A → Bool
panics (ok a) = false
panics (err e) = false
panics panic = true

pub get_elem?-lt : (bs : List ℕ) (i : ℕ) → i < length bs → (b : ℕ) × (get_elem? bs i ≡ some b)
get_elem?-lt [] i h = absurd (omega arith)
get_elem?-lt (b ∷ bs) zero h = (b, refl)
get_elem?-lt (b ∷ bs) (suc i) h = get_elem?-lt bs i (omega arith)

get_elem?-le : (bs : List ℕ) (i : ℕ) → length bs ≤ i → get_elem? bs i ≡ none
get_elem?-le [] i h = refl
get_elem?-le (b ∷ bs) zero h = absurd (omega arith)
get_elem?-le (b ∷ bs) (suc i) h = get_elem?-le bs i (omega arith)

pub uint64_total : (bs : List ℕ) → length bs ≡ 8 → (v : ℕ) × (uint64 bs ≡ ok v)
unfolding uint64
uint64_total (a ∷ b ∷ c ∷ d ∷ e ∷ f ∷ g ∷ h ∷ r) n = (_, refl)
uint64_total [] n = absurd (omega arith)
uint64_total (a ∷ []) n = absurd (omega arith)
uint64_total (a ∷ b ∷ []) n = absurd (omega arith)
uint64_total (a ∷ b ∷ c ∷ []) n = absurd (omega arith)
uint64_total (a ∷ b ∷ c ∷ d ∷ []) n = absurd (omega arith)
uint64_total (a ∷ b ∷ c ∷ d ∷ e ∷ []) n = absurd (omega arith)
uint64_total (a ∷ b ∷ c ∷ d ∷ e ∷ f ∷ []) n = absurd (omega arith)
uint64_total (a ∷ b ∷ c ∷ d ∷ e ∷ f ∷ g ∷ []) n = absurd (omega arith)

pub uint16_short : (bs : List ℕ) → length bs < 2 → uint16 bs ≡ panic
unfolding uint16
uint16_short [] n = refl
uint16_short (a ∷ []) n = refl
uint16_short (a ∷ b ∷ bs) n = absurd (omega arith)

pub uint16_total : (bs : List ℕ) → 2 ≤ length bs → (v : ℕ) × (uint16 bs ≡ ok v)
unfolding uint16
uint16_total [] n = absurd (omega arith)
uint16_total (a ∷ []) n = absurd (omega arith)
uint16_total (a ∷ b ∷ bs) n = (_, refl)

module _ (body : List ℕ) where
  pub index_total : (i : ℕ) → i < length body → (b : ℕ) × (index i (full body) ≡ ok b)
  unfolding index
  index_total i h = let (b, e) = get_elem?-lt body i h in (b, rw e)

  pub index_panics : (i : ℕ) → length body ≤ i → index i (full body) ≡ panic
  unfolding index
  index_panics i h = rw (get_elem?-le body i h)

  pub slice_total :
      (lo hi : ℕ)
      → lo ≤ hi
      → hi ≤ length body
      → (bs : List ℕ) × (slice lo hi (full body) ≡ ok bs) × (length bs ≡ hi - lo)
  unfolding slice
  slice_total lo hi l h = (
    take (hi - lo) (drop lo body),
    rw (le→leb lo hi l, le→leb hi (length body + 0) (omega arith), append-nil body),
    length-take (hi - lo) (drop lo body) (omega (arith, length-drop lo body)),
  )

  pub id_at_total :
      (lo hi : ℕ) → hi ≡ lo + 8 → hi ≤ length body → (v : ℕ) × (id_at lo hi (full body) ≡ ok v)
  id_at_total lo hi e h =
      let (bs, s, n) = slice_total lo hi (omega arith) h in
      let (v, u) = uint64_total bs (omega arith) in (v, cc (s, u))

  pub id_at_panics : (lo hi : ℕ) → length body < hi → id_at lo hi (full body) ≡ panic
  id_at_panics lo hi h = rw (slice_panics (full body) lo hi (inr (omega arith)))

  -- A payload that is all there is decoded or refused by encoding/json.
  pub data_at_cases :
      {D : Type 0} (j : Json D) (lo hi : ℕ)
      → lo ≤ hi
      → hi ≤ length body
      → ((d : D) × (data_at j lo hi (full body) ≡ ok d))
        ⊎ (data_at j lo hi (full body) ≡ err json_error)
  data_at_cases j lo hi l h =
      let (bs, s, n) = slice_total lo hi l h in
      elim (Option-cases (j.unmarshal bs)) [
        | inl e ↦ inr (rw s (rw (e, unmarshalled)))
        | inr (d, e) ↦ inl (d, rw s (rw (e, unmarshalled)))
      ]

-- io.ReadFull fills its buffer or returns an error.
pub read_full_cases :
    (n : ℕ) (r : List ℕ)
    → ((n ≤ length r) × (read_full n r ≡ (ok (take n r), drop n r)))
      ⊎ ((length r < n) × ((e : Error) × (read_full n r ≡ (err e, []))))
unfolding read_full
read_full_cases n r = elim (Bool-cases (leb n (length r))) [
  | inl y ↦ inl (ground arith, rw y)
  | inr z ↦ inr (
    ground arith,
    (elim (Bool-cases (length r == 0)) [
      | inl a ↦ (eof, rw z (rw a))
      | inr b ↦ (unexpected_eof, rw z (rw b))
    ]),
  )
]
