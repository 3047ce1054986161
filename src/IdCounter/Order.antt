-- ===== src/IdCounter/Order.antt =====
-- The counting modes never repeat an identifier while the counter does not wrap.
use geminio.Common.{
  ℕ, ◌+◌, ◌*◌, ◌^◌, ◌<◌, ◌≤◌, ◌≡◌, refl, List, [], ◌∷◌, arith, Outcome, ok, err, panic, ap, length,
}
use geminio.IdCounter.{IdCounter, Mode, even, odd, inc, unique, get_id, get_id_mode}
use geminio.IdCounter.Parity.{draw}

-- Each identifier is above `v`, and each later one above those before it.
abbrev pub Ascends : ℕ → List (Outcome ℕ) → Type 0
Ascends v [] = Unit {0}
Ascends v (ok w ∷ rest) = (v < w) × Ascends w rest
Ascends v (err e ∷ rest) = ⊥
Ascends v (panic ∷ rest) = ⊥

-- Seconds since 1970 that do not run backwards and fit 32 bits.
abbrev pub Runs : ℕ → List ℕ → Type 0
Runs t [] = Unit {0}
Runs t (u ∷ later) = (t ≤ u) × (u < 2 ^ 32) × Runs u later

abbrev pub IsCounting : Mode → Type 0
IsCounting unique = ⊥
IsCounting _ = Unit {0}

-- One call: the counter goes up by at most 3, and the identifier is its stamp.
abbrev Steps : ℕ → IdCounter → Outcome ℕ × IdCounter → Type 0
Steps unix c (o, d) =
    (o ≡ ok (unix * 2 ^ 32 + d.counter))
    × (c.counter < d.counter)
    × (d.counter ≤ c.counter + 3)
    × (d.mode ≡ c.mode)

get_id_mode-Steps :
    (m : Mode) (unix : ℕ) (c : IdCounter)
    → IsCounting m
    → unix < 2 ^ 32
    → c.counter + 3 < 2 ^ 32
    → Steps unix c (get_id_mode m unix c)
unfolding get_id_mode
get_id_mode-Steps even unix c h u b = (ap ok (omega arith), omega arith, omega arith, refl)
get_id_mode-Steps odd unix c h u b = ground arith
get_id_mode-Steps inc unix c h u b = (ap ok (omega arith), omega arith, omega arith, refl)
get_id_mode-Steps unique unix c h u b = absurd h

get_id-Steps :
    (unix : ℕ) (c : IdCounter)
    → IsCounting c.mode
    → unix < 2 ^ 32
    → c.counter + 3 < 2 ^ 32
    → Steps unix c (get_id unix c)
unfolding get_id
get_id-Steps unix c h u b = get_id_mode-Steps c.mode unix c h u b

-- In every mode but the unique one, while the clock does not run backwards and keeps below 2 ^ 32,
-- and the counter has room for three per call: all calls succeed, and their identifiers ascend
-- strictly, from above the stamp of the start.
pub draw-Ascends :
    (later : List ℕ) (t : ℕ) (c : IdCounter)
    → IsCounting c.mode
    → Runs t later
    → c.counter + 3 * length later < 2 ^ 32
    → Ascends (t * 2 ^ 32 + c.counter) (draw later c)
unfolding draw
draw-Ascends [] t c h r b = tt
draw-Ascends (u ∷ later) t c h (le, small, r) b =
    let (o, up, top, m) = get_id-Steps u c h small (omega arith) in
    let rest = draw-Ascends later u (get_id u c).1 (rw m h) r (omega arith) in
    rw o (omega arith, rest)
