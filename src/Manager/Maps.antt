-- ===== src/Manager/Maps.antt =====
-- Go maps from identifiers, as lists of pairs whose first entry for a key counts, and the store of
-- shared objects.
use geminio.Common.{
  ℕ, zero, suc, ◌<◌, ◌==◌, ◌≡◌, refl, arith, List, [], ◌∷◌, ◌++◌, length, get_elem?, Option, none,
  some, if◌then◌else◌, Bool-cases, inl, inr, ap, ◌≢◌, ◌⊎◌,
}

-- From identifiers to places in the store.
abbrev pub Table : Type 0
Table = List (ℕ × ℕ)

unfoldable pub lookup : ℕ → Table → Option ℕ
lookup k [] = none
lookup k ((j, v) ∷ t) = let rest = lookup k t in if j == k then some v else rest

unfoldable pub delete : ℕ → Table → Table
delete k [] = []
delete k ((j, v) ∷ t) = let rest = delete k t in if j == k then rest else (j, v) ∷ rest

unfoldable pub insert : ℕ → ℕ → Table → Table
unfolding delete
insert k v t = (k, v) ∷ delete k t

unfoldable pub update {ℓ} : {A : Type ℓ} → ℕ → (A → A) → List A → List A
update k f [] = []
update zero f (x ∷ xs) = f x ∷ xs
update (suc k) f (x ∷ xs) = x ∷ update k f xs

-- What a table is as a function.
pub lookup-delete :
    (k j : ℕ) (t : Table) → lookup k (delete j t) ≡ (if j == k then none else lookup k t)
unfolding lookup delete
lookup-delete k j [] = ground arith
lookup-delete k j ((i, v) ∷ t) = ground (arith, lookup-delete k j t)

pub lookup-insert :
    (k j v : ℕ) (t : Table) → lookup k (insert j v t) ≡ (if j == k then some v else lookup k t)
unfolding lookup insert
lookup-insert k j v t = ground (arith, lookup-delete k j t)

pub equal_or_not : (v k : ℕ) → (v ≡ k) ⊎ (v ≢ k)
equal_or_not v k = elim (Bool-cases (v == k)) [
  | inl q ↦ inl (ground arith)
  | inr q ↦ inr (λ e. ground arith)
]

pub lookup-insert_same : (k v : ℕ) (t : Table) → lookup k (insert k v t) ≡ some v
unfolding lookup insert
lookup-insert_same k v t = ground arith

pub update_same :
    {A : Type 0} (k : ℕ) (f : A → A) (xs : List A)
    → get_elem? (update k f xs) k ≡ elim (get_elem? xs k) [ none ↦ none | some x ↦ some (f x) ]
unfolding update
update_same k f [] = refl
update_same zero f (x ∷ xs) = refl
update_same (suc k) f (x ∷ xs) = update_same k f xs

pub update_other :
    {A : Type 0} (k j : ℕ) (f : A → A) (xs : List A)
    → j ≢ k
    → get_elem? (update j f xs) k ≡ get_elem? xs k
unfolding update
update_other k j f [] n = refl
update_other zero zero f (x ∷ xs) n = absurd (n refl)
update_other (suc k) zero f (x ∷ xs) n = refl
update_other zero (suc j) f (x ∷ xs) n = refl
update_other (suc k) (suc j) f (x ∷ xs) n = update_other k j f xs (λ e. n (ap suc e))

pub get_elem?-append :
    {A : Type 0} (xs ys : List A) (k : ℕ) → k < length xs → get_elem? (xs ++ ys) k ≡ get_elem? xs k
get_elem?-append [] ys k l = absurd (omega arith)
get_elem?-append (x ∷ xs) ys zero l = refl
get_elem?-append (x ∷ xs) ys (suc k) l = get_elem?-append xs ys k (omega arith)

pub get_elem?-last :
    {A : Type 0} (xs : List A) (y : A) → get_elem? (xs ++ y ∷ []) (length xs) ≡ some y
get_elem?-last [] y = refl
get_elem?-last (x ∷ xs) y = get_elem?-last xs y
