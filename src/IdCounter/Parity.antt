-- ===== src/IdCounter/Parity.antt =====
-- The parity of what the even and odd modes give out.
use geminio.Common.{
  ℕ, ◌+◌, ◌%◌, ◌<◌, ◌≡◌, ◌==◌, refl, true, false, List, [], ◌∷◌, some, All, arith, Outcome, ok, err,
  panic, bit_or, holds_below, holds_below_sound, ◌∙◌, inl, inr, ◌⊎◌, if◌then◌else◌, ap,
}
use geminio.IdCounter.{IdCounter, Mode, even, odd, get_id, get_id_mode, start_odd, new_id_counter}

-- Successive calls of GetID at the given times.
unfoldable pub draw : List ℕ → IdCounter → List (Outcome ℕ)
draw [] c = []
draw (unix ∷ later) c = (get_id unix c).0 ∷ draw later (get_id unix c).1

abbrev pub HasParity : ℕ → Outcome ℕ → Type 0
HasParity p (ok v) = v % 2 ≡ p
HasParity p (err e) = ⊥
HasParity p panic = ⊥

-- A counter whose next identifiers have the parity `p`.
abbrev Steady : ℕ → IdCounter → Type 0
Steady p c = ((c.mode ≡ even) ⊎ ((c.mode ≡ odd) × (c.once ≡ true))) × (c.counter % 2 ≡ p)

abbrev Keeps : ℕ → Outcome ℕ × IdCounter → Type 0
Keeps p (o, c) = HasParity p o × Steady p c

get_id_mode-Keeps_even :
    (unix p : ℕ) (c : IdCounter)
    → c.mode ≡ even
    → c.counter % 2 ≡ p
    → Keeps p (get_id_mode even unix c)
unfolding get_id_mode
get_id_mode-Keeps_even unix p c m q = (omega arith, (inl m, omega arith))

start_odd_lem :
    (p : ℕ) (c : IdCounter)
    → (if c.once then c.counter else c.counter + 1) % 2 ≡ p
    → ((start_odd c).counter % 2 ≡ p) × ((start_odd c).mode ≡ c.mode) × ((start_odd c).once ≡ true)
unfolding start_odd
start_odd_lem p c q = ground arith

get_id_mode-Keeps_odd :
    (unix p : ℕ) (c : IdCounter)
    → c.mode ≡ odd
    → (if c.once then c.counter else c.counter + 1) % 2 ≡ p
    → Keeps p (get_id_mode odd unix c)
unfolding get_id_mode
get_id_mode-Keeps_odd unix p c m q =
    let (n, same, o) = start_odd_lem p c q in (omega arith, (inr (same ∙ m, o), omega arith))

get_id-get_id_mode :
    (unix : ℕ) (c : IdCounter) (m : Mode) → c.mode ≡ m → get_id unix c ≡ get_id_mode m unix c
unfolding get_id
get_id-get_id_mode unix c m e = ap (λ k. get_id_mode k unix c) e

get_id-Keeps : (unix p : ℕ) (c : IdCounter) → Steady p c → Keeps p (get_id unix c)
get_id-Keeps unix p c (inl m, q) =
    rw (get_id-get_id_mode unix c even m) (get_id_mode-Keeps_even unix p c m q)
get_id-Keeps unix p c (inr (m, o), q) =
    rw (get_id-get_id_mode unix c odd m) (get_id_mode-Keeps_odd unix p c m (rw o q))

draw-Steady :
    (later : List ℕ) (p : ℕ) (c : IdCounter) → Steady p c → All (HasParity p) (draw later c)
unfolding draw
draw-Steady [] p c h = tt
draw-Steady (unix ∷ later) p c h =
    let (first, rest) = get_id-Keeps unix p c h in
    (first, draw-Steady later p (get_id unix c).1 rest)

-- The first call of an odd counter starts it; every call keeps the parity from there.
draw-odd :
    (later : List ℕ) (p : ℕ) (c : IdCounter)
    → c.mode ≡ odd
    → c.once ≡ false
    → (c.counter + 1) % 2 ≡ p
    → All (HasParity p) (draw later c)
unfolding draw
draw-odd [] p c m o q = tt
draw-odd (unix ∷ later) p c m o q =
    let first = get_id_mode-Keeps_odd unix p c m (rw o q) in
    let keeps : Keeps p (get_id unix c) = rw (get_id-get_id_mode unix c odd m) first in
    (keeps.0, draw-Steady later p (get_id unix c).1 keeps.1)

or_zero : (b : ℕ) → b < 256 → bit_or b 0 ≡ b
unfolding holds_below
or_zero b h = ground (arith, table)
  where
    table : (bit_or b 0x00 == b) ≡ true
    table = holds_below_sound 256 (λ k. bit_or k 0x00 == k) b refl h

-- The first random byte alone decides the parity of everything that an even and an odd counter
-- give out: an even byte gives even and odd identifiers, an odd byte the other way round.
pub draw-HasParity :
    (later : List ℕ) (b0 b1 b2 b3 : ℕ)
    → b0 < 256
    → All (HasParity (b0 % 2)) (draw later (new_id_counter even (some (b0, b1, b2, b3))))
      × All (HasParity ((b0 + 1) % 2)) (draw later (new_id_counter odd (some (b0, b1, b2, b3))))
unfolding new_id_counter
draw-HasParity later b0 b1 b2 b3 h = (
  draw-Steady later (b0 % 2) (new_id_counter even (some (b0, b1, b2, b3)))
      (inl refl, omega (arith, or_zero b0 h)),
  draw-odd later ((b0 + 1) % 2) (new_id_counter odd (some (b0, b1, b2, b3))) refl refl
      (omega (arith, or_zero b0 h)),
)
