-- ===== src/Common/Outcomes.antt =====
-- What a call of Go code can do: return a value, return an error, or panic.
use mathlib.Core.Path.{◌≡◌, refl, subst}
use mathlib.Core.Logic.{◌⊎◌, inl, inr}

-- The errors of packet/decode.go, of io.ReadFull, of encoding/json, and `errors.New`.
pub data Error : Type 0 where
  unsupported_packet incomplete_packet expecting_data invalid_arguments : Error
  illegal_packet packet_too_large eof unexpected_eof json_error : Error

pub data Outcome {ℓ} (A : Type ℓ) : Type ℓ where
  ok : A → Outcome A
  err : Error → Outcome A
  panic : Outcome A

infixl 5 ◌>>=◌
abbrev pub ◌>>=◌ {ℓ κ} : {A : Type ℓ} {B : Type κ} → Outcome A → (A → Outcome B) → Outcome B
ok a >>= f = f a
err e >>= f = err e
panic >>= f = panic

pub Outcome-cases {ℓ} :
    {A : Type ℓ} (o : Outcome A)
    → ((a : A) × (o ≡ ok a)) ⊎ (((e : Error) × (o ≡ err e)) ⊎ (o ≡ panic))
Outcome-cases (ok a) = inl (a, refl)
Outcome-cases (err e) = inr (inl (e, refl))
Outcome-cases panic = inr (inr refl)

pub ok-injective {ℓ} : {A : Type ℓ} {x y : A} → ok x ≡ ok y → x ≡ y
ok-injective e = cc

-- Any value returned satisfies `P`.
abbrev pub Gives {ℓ} : {A : Type ℓ} → (A → Type 0) → Outcome A → Type 0
Gives P (ok a) = P a
Gives P (err e) = Unit {0}
Gives P panic = Unit {0}

pub bind-Gives {ℓ κ} :
    {A : Type ℓ} {B : Type κ} (P : A → Type 0) (Q : B → Type 0) (o : Outcome A) (f : A → Outcome B)
    → Gives P o
    → ((a : A) → P a → Gives Q (f a))
    → Gives Q (o >>= f)
bind-Gives P Q (ok a) f h k = k a h
bind-Gives P Q (err e) f h k = h
bind-Gives P Q panic f h k = h

-- Of a body that says all by itself.
pub each-Gives {ℓ κ} :
    {A : Type ℓ} {B : Type κ} (Q : B → Type 0) (o : Outcome A) (f : A → Outcome B)
    → ((a : A) → Gives Q (f a))
    → Gives Q (o >>= f)
each-Gives Q (ok a) f k = k a
each-Gives Q (err e) f k = tt
each-Gives Q panic f k = tt

pub weaken-Gives {ℓ} :
    {A : Type ℓ} (P Q : A → Type 0) (o : Outcome A) → ((a : A) → P a → Q a) → Gives P o → Gives Q o
weaken-Gives P Q (ok a) f h = f a h
weaken-Gives P Q (err e) f h = h
weaken-Gives P Q panic f h = h

pub ok-Gives {ℓ} :
    {A : Type ℓ} (P : A → Type 0) (o : Outcome A) (a : A) → Gives P o → o ≡ ok a → P a
ok-Gives P o a g e = subst (Gives P) e g
