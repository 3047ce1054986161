-- ===== src/IdCounter/Unique.antt =====
-- The unique mode gives out the smallest identifier that is free.
use native.Mathlib.Decide.{dec_lt}
use geminio.Common.{
  ℕ, zero, suc, ◌+◌, ◌-◌, ◌≤◌, ◌<◌, ◌≡◌, ◌≢◌, refl, true, false, List, [], ◌∷◌, none, some, length,
  arith, ok, Bool-cases, Option-cases, inl, inr,
}
use geminio.IdCounter.{
  IdCounter, unique, member, remove, first_free, unique_rounds, get_id, get_id_mode, take_free,
}

member-remove_ne : (i j : ℕ) (s : List ℕ) → i ≢ j → member j (remove i s) ≡ member j s
member-remove_ne i j [] n = refl
member-remove_ne i j (k ∷ s) n = ground (arith, member-remove_ne i j s n)

member-remove_self : (i : ℕ) (s : List ℕ) → member i (remove i s) ≡ false
member-remove_self i [] = refl
member-remove_self i (k ∷ s) = ground (arith, member-remove_self i s)

length-remove_le : (i : ℕ) (s : List ℕ) → length (remove i s) ≤ length s
length-remove_le i [] = omega arith
length-remove_le i (k ∷ s) = ground (arith, length-remove_le i s)

length-remove_lt : (i : ℕ) (s : List ℕ) → member i s ≡ true → length (remove i s) < length s
length-remove_lt i [] h = cc
length-remove_lt i (k ∷ s) h = ground (arith, length-remove_le i s, length-remove_lt i s)

-- A list that holds `k` consecutive numbers is at least that long.
pigeonhole :
    (k i : ℕ) (s : List ℕ) → ((j : ℕ) → i ≤ j → j < i + k → member j s ≡ true) → k ≤ length s
pigeonhole zero i s h = omega arith
pigeonhole (suc k) i s h = omega (
  arith,
  length-remove_lt i s (h i (omega arith) (omega arith)),
  pigeonhole k (i + 1) (remove i s)
      (λ j l u. rw (member-remove_ne i j s (omega arith)) (h j (omega arith) (omega arith))),
)

first_free-eq-none :
    (k i : ℕ) (s : List ℕ)
    → first_free k i s ≡ none
    → (j : ℕ) → i ≤ j
    → j < i + k
    → member j s ≡ true
unfolding first_free
first_free-eq-none zero i s e j l u = absurd (omega arith)
first_free-eq-none (suc k) i s e j l u = elim (Bool-cases (member i s)) [
  | inr q ↦ cc (rw q at e)
  | inl q ↦ elim (dec_lt i j) [
    | yes p ↦ first_free-eq-none k (i + 1) s (rw q at e) j (omega arith) (omega arith)
    | no p ↦ let same : j ≡ i = omega arith in rw same q
  ]
]

abbrev IsFirstFree : ℕ → ℕ → List ℕ → ℕ → Type 0
IsFirstFree k i s r =
    (i ≤ r) × (r < i + k) × (member r s ≡ false) × ((j : ℕ) → i ≤ j → j < r → member j s ≡ true)

first_free-eq-some :
    (k i : ℕ) (s : List ℕ) (r : ℕ) → first_free k i s ≡ some r → IsFirstFree k i s r
unfolding first_free
first_free-eq-some zero i s r e = cc
first_free-eq-some (suc k) i s r e = elim (Bool-cases (member i s)) [
  | inr q ↦
      let same : i ≡ r = cc (rw q at e) in
      rw (← same) (omega arith, omega arith, q, λ j l u. absurd (omega arith))
  | inl q ↦
      let (lo, hi, f, m) = first_free-eq-some k (i + 1) s r (rw q at e) in
      (
        omega arith,
        omega arith,
        f,
        λ j l u. elim (dec_lt i j) [
          | yes p ↦ m j (omega arith) u
          | no p ↦ let same : j ≡ i = omega arith in rw same q
        ],
      )
]

-- While the set is smaller than the loop's range, GetID in the unique mode gives the smallest
-- positive identifier outside the set, at most one more than the set's size, and adds it.
pub get_id_unique :
    (unix : ℕ) (c : IdCounter) (s : List ℕ)
    → c.mode ≡ unique
    → c.ids ≡ some s
    → length s < unique_rounds
    → (i : ℕ) × (get_id unix c ≡ (ok i, record c { ids = some (i ∷ s) }))
      × (1 ≤ i)
      × (i ≤ length s + 1)
      × (member i s ≡ false)
      × ((j : ℕ) → 1 ≤ j → j < i → member j s ≡ true)
unfolding get_id take_free
get_id_unique unix c s m e b = elim (Option-cases (first_free unique_rounds 1 s)) [
  | inl q ↦
      absurd (omega (arith, pigeonhole unique_rounds 1 s (first_free-eq-none unique_rounds 1 s q)))
  | inr (i, q) ↦
      let (lo, hi, f, below) = first_free-eq-some unique_rounds 1 s i q in
      let small = pigeonhole (i - 1) 1 s (λ j l u. below j l (omega arith)) in
      (i, rw (m, get_id_mode) (rw e (rw q)), lo, omega (arith, small), f, below)
]
