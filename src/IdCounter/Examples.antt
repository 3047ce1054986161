-- ===== src/IdCounter/Examples.antt =====
-- Runs of the counters.
use geminio.Common.{
  ℕ, ◌+◌, ◌*◌, ◌^◌, ◌≤◌, ◌<◌, ◌≡◌, refl, true, false, [], ◌∷◌, some, All, arith, ok,
}
use geminio.IdCounter.{
  IdCounter, even, odd, unique, member, get_id, new_id_counter, first_free, del_id,
}
use geminio.IdCounter.Unique.{get_id_unique}
use geminio.IdCounter.Parity.{draw, HasParity, draw-HasParity}
use geminio.IdCounter.Order.{Ascends, draw-Ascends}

abbrev partly_used : IdCounter
partly_used = record { counter = 0; once = false; ids = some (1 ∷ 2 ∷ 4 ∷ []); mode = unique }

-- 3 is free, and after 2 is deleted 2 is.
get_id-partly_used : (get_id 0 partly_used).0 ≡ ok 3
unfolding get_id first_free
get_id-partly_used = refl

get_id-del_id_example : (get_id 0 (del_id 2 partly_used)).0 ≡ ok 2
unfolding get_id first_free del_id
get_id-del_id_example = refl

get_id_unique_example :
    (i : ℕ) × (get_id 0 partly_used
      ≡ (ok i, record partly_used { ids = some (i ∷ 1 ∷ 2 ∷ 4 ∷ []) }))
    × (1 ≤ i)
    × (i ≤ 4)
    × (member i (1 ∷ 2 ∷ 4 ∷ []) ≡ false)
    × ((j : ℕ) → 1 ≤ j → j < i → member j (1 ∷ 2 ∷ 4 ∷ []) ≡ true)
get_id_unique_example = get_id_unique 0 partly_used (1 ∷ 2 ∷ 4 ∷ []) refl refl (omega arith)

-- An odd byte: the even counter's identifiers are odd.
draw-HasParity_example :
    All (HasParity 1) (draw (10 ∷ 11 ∷ []) (new_id_counter even (some (3, 0, 0, 0))))
    × All (HasParity 0) (draw (10 ∷ 11 ∷ []) (new_id_counter odd (some (3, 0, 0, 0))))
draw-HasParity_example = draw-HasParity (10 ∷ 11 ∷ []) 3 0 0 0 (omega arith)

abbrev counting : IdCounter
counting = record { counter = 5; once = false; ids = some []; mode = odd }

draw-Ascends_example : Ascends (9 * 2 ^ 32 + 5) (draw (10 ∷ 10 ∷ 12 ∷ []) counting)
draw-Ascends_example = draw-Ascends (10 ∷ 10 ∷ 12 ∷ []) 9 counting tt (omega arith) (omega arith)
