-- ===== src/Packet/Writer.antt =====
-- EncodeToWriter: the loop over io.Writer.
use geminio.Common.{
  ℕ, zero, suc, ◌+◌, ◌≤◌, ◌≡◌, Bool, true, false, List, ◌++◌, length, take, drop, Option, none,
  some, ◌==◌, if◌then◌else◌, Outcome, ok, ◌>>=◌,
}
use geminio.Packet.{Env, Packet}
use geminio.Packet.Encode.{encode}

-- An io.Writer: a call gives the count of bytes it took and whether it returns an error. Without an
-- error it took at least one byte and at most all. `taken` is what it has taken in its time.
pub record Writer : Type 1 where
  pub State : Type 0
  pub write : List ℕ → State → ℕ × Bool × State
  pub taken : State → List ℕ
  pub write_takes :
      (bs : List ℕ) (s : State)
      → 1 ≤ length bs
      → (write bs s).1 ≡ false
      → (1 ≤ (write bs s).0)
        × ((write bs s).0 ≤ length bs)
        × (taken (write bs s).2 ≡ taken s ++ take (write bs s).0 bs)

module _ (w : Writer) (bytes : List ℕ) where
  -- The loop from `pos` on, with fuel for its rounds; the Boolean is whether it returns an error.
  unfoldable pub write_rest : ℕ → ℕ → w.State → Option (Bool × w.State)
  write_rest zero pos s = none
  write_rest (suc k) pos s =
      let (m, failed, after) = w.write (drop pos bytes) s in
      let rest = write_rest k (pos + m) after in
      if failed
      then some (true, after)
      else if pos + m == length bytes
      then some (false, after)
      else rest

-- EncodeToWriter: without an error each round writes a byte, so there are at most as many as bytes.
unfoldable pub encode_to_writer :
    Env → (w : Writer) → Packet → w.State → Outcome (Option (Bool × w.State))
unfolding write_rest
encode_to_writer env w p s = do bs ← encode env p; ok (write_rest w bs (length bs) 0 s)

-- Everything is written, unless there was an error.
abbrev pub Writes : (w : Writer) → List ℕ → w.State → Option (Bool × w.State) → Type 0
Writes w bs s none = ⊥
Writes w bs s (some (true, after)) = Unit {0}
Writes w bs s (some (false, after)) = w.taken after ≡ w.taken s ++ bs
