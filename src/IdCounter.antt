-- ===== src/IdCounter.antt =====
-- pkg/id/id.go: identifiers for packets and dialogues. The clock is an argument of each call; the
-- random bytes are one of the constructor. Calls are taken one after the other, as the mutex and
-- the atomic additions order them.
pub mod Unique
pub mod Parity
pub mod Order
mod Examples
use geminio.Common.{
  ℕ, zero, suc, ◌+◌, ◌-◌, ◌*◌, ◌%◌, ◌^◌, Bool, true, false, ◌||◌, List, [], ◌∷◌, Option, none, some,
  ◌==◌, if◌then◌else◌, Outcome, ok, panic, bit_or,
}

pub data Mode : Type 0 where
  even odd unique inc : Mode

-- `ids` is a set of identifiers, `none` the nil map that Close leaves. `once` says whether the
-- once.Do of odd counters has run.
pub record IdCounter : Type 0 where
  pub counter : ℕ  -- uint32
  pub once : Bool
  pub ids : Option (List ℕ)
  pub mode : Mode

-- The four bytes of crypto/rand, or its failure. They are shifted to disjoint places, where `|` is
-- a sum; `b[0] |= 0x00` is written out.
unfoldable pub random_uint32 : Option (ℕ × ℕ × ℕ × ℕ) → ℕ
random_uint32 none = 0
random_uint32 (some (b0, b1, b2, b3)) = bit_or b0 0x00 + b1 * 2 ^ 8 + b2 * 2 ^ 16 + b3 * 2 ^ 24

unfoldable pub new_id_counter : Mode → Option (ℕ × ℕ × ℕ × ℕ) → IdCounter
unfolding random_uint32
new_id_counter unique r = record { counter = 0; once = false; ids = some []; mode = unique }
new_id_counter m r = record { counter = random_uint32 r; once = false; ids = some []; mode = m }

abbrev pub member : ℕ → List ℕ → Bool
member i [] = false
member i (j ∷ js) = i == j || member i js

-- A write to a nil map panics.
unfoldable pub reserve_id : ℕ → IdCounter → Outcome (Unit {0}) × IdCounter
reserve_id i c = elim c.ids [
  | none ↦ (panic, c)
  | some s ↦ (ok tt, record c { ids = some (i ∷ s) })
]

-- The loop from `i` on, with the rounds that are left before math.MaxUint64.
unfoldable pub first_free : ℕ → ℕ → List ℕ → Option ℕ
first_free zero i s = none
first_free (suc k) i s = let rest = first_free k (i + 1) s in if member i s then rest else some i

-- `for i := uint64(1); i < math.MaxUint64; i++`
abbrev pub unique_rounds : ℕ
unique_rounds = 2 ^ 64 - 2

unfoldable pub take_free : Option ℕ → IdCounter → Outcome ℕ × IdCounter
take_free none c = (ok 0, c)
take_free (some i) c = elim c.ids [
  | none ↦ (panic, c)
  | some s ↦ (ok i, record c { ids = some (i ∷ s) })
]

-- A nil map has no keys.
abbrev pub keys : Option (List ℕ) → List ℕ
keys none = []
keys (some s) = s

-- `uint64(time.Now().Unix()<<32) + uint64(counter)`
abbrev pub stamp : ℕ → ℕ → ℕ
stamp unix n = (unix * 2 ^ 32 % 2 ^ 64 + n) % 2 ^ 64

-- atomic.AddUint32, and the identifier from its result.
unfoldable pub add_counter : ℕ → ℕ → IdCounter → Outcome ℕ × IdCounter
add_counter unix d c =
    let n = (c.counter + d) % 2 ^ 32 in (ok (stamp unix n), record c { counter = n })

-- The once.Do of odd counters.
unfoldable pub start_odd : IdCounter → IdCounter
start_odd c = if c.once then c else record c { once = true; counter = (c.counter + 1) % 2 ^ 32 }

unfoldable pub get_id_mode : Mode → ℕ → IdCounter → Outcome ℕ × IdCounter
unfolding add_counter start_odd take_free
get_id_mode even unix c = add_counter unix 2 c
get_id_mode odd unix c = add_counter unix 2 (start_odd c)
get_id_mode inc unix c = add_counter unix 1 c
get_id_mode unique unix c = take_free (first_free unique_rounds 1 (keys c.ids)) c

unfoldable pub get_id : ℕ → IdCounter → Outcome ℕ × IdCounter
unfolding get_id_mode
get_id unix c = get_id_mode c.mode unix c

abbrev pub remove : ℕ → List ℕ → List ℕ
remove i [] = []
remove i (j ∷ js) = if i == j then remove i js else j ∷ remove i js

-- `delete` does nothing to a nil map; the other modes keep no set.
unfoldable pub del_id_mode : Mode → ℕ → IdCounter → IdCounter
del_id_mode unique i c = elim c.ids [ none ↦ c | some s ↦ record c { ids = some (remove i s) } ]
del_id_mode _ i c = c

unfoldable pub del_id : ℕ → IdCounter → IdCounter
unfolding del_id_mode
del_id i c = del_id_mode c.mode i c

unfoldable pub close : IdCounter → IdCounter
close c = record c { ids = none }
