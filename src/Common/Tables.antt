-- ===== src/Common/Tables.antt =====
-- Facts about one byte, checked by evaluation at every value.
use Prim.Native.Nat.{ℕ, zero, suc, ◌<◌}
use mathlib.Core.Path.{◌≡◌}
use mathlib.Core.Bool.{Bool, true, ◌&&◌}
use native.Mathlib.Omega.{arith}

unfoldable pub holds_below : ℕ → (ℕ → Bool) → Bool
holds_below zero p = true
holds_below (suc n) p = p n && holds_below n p

pub holds_below_sound : (n : ℕ) (p : ℕ → Bool) (x : ℕ) → holds_below n p ≡ true → x < n → p x ≡ true
unfolding holds_below
holds_below_sound zero p x h b = absurd (omega arith)
holds_below_sound (suc n) p x h b = ground (arith, holds_below_sound n p x)
