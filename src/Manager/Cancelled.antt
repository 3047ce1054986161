-- ===== src/Manager/Cancelled.antt =====
-- What fini does to the dialogues of both maps.
use geminio.Common.{
  ℕ, ◌==◌, ◌≡◌, ◌⊎◌, refl, true, false, List, [], ◌∷◌, Option, none, some, get_elem?, Bool-cases,
  inl, inr, ◌∙◌, ap,
}
use geminio.Dialogue.{Dialogue}
use geminio.Dialogue.Loop
use geminio.Manager.{Manager}
use geminio.Manager.Maps.{Table, lookup, update, equal_or_not, update_same, update_other}
use geminio.Manager.Ending.{close_all, fini_mgr}

some-injective : {a b : ℕ} → some a ≡ some b → a ≡ b
some-injective e = cc

abbrev pub IsCancelledAt : ℕ → Dialogue → List Dialogue → Type 0
IsCancelledAt k dg store = get_elem? store k ≡ some (record dg { cancelled = true })

closed_at :
    (k : ℕ) (dg : Dialogue) (store : List Dialogue)
    → get_elem? store k ≡ some dg
    → IsCancelledAt k dg (update k Loop.close_io store)
unfolding Loop.close_io
closed_at k dg store e =
    update_same k Loop.close_io store
    ∙ ap (λ o. elim o as (λ x. Option Dialogue) [ none ↦ none | some x ↦ some (Loop.close_io x) ]) e

update-IsCancelledAt :
    (v k : ℕ) (dg : Dialogue) (store : List Dialogue)
    → IsCancelledAt k dg store
    → IsCancelledAt k dg (update v Loop.close_io store)
update-IsCancelledAt v k dg store c = elim (equal_or_not v k) [
  | inl e ↦ rw e (closed_at k (record dg { cancelled = true }) store c)
  | inr n ↦ update_other k v Loop.close_io store n ∙ c
]

close_all-IsCancelledAt :
    (t : Table) (k : ℕ) (dg : Dialogue) (store : List Dialogue)
    → IsCancelledAt k dg store
    → IsCancelledAt k dg (close_all t store)
unfolding close_all
close_all-IsCancelledAt [] k dg store c = c
close_all-IsCancelledAt ((j, v) ∷ t) k dg store c =
    close_all-IsCancelledAt t k dg (update v Loop.close_io store)
      (update-IsCancelledAt v k dg store c)

-- Every place of the table is closed.
close_all-lookup :
    (t : Table) (i k : ℕ) (dg : Dialogue) (store : List Dialogue)
    → lookup i t ≡ some k
    → get_elem? store k ≡ some dg
    → IsCancelledAt k dg (close_all t store)
unfolding close_all lookup
close_all-lookup [] i k dg store l e = cc l
close_all-lookup ((j, v) ∷ t) i k dg store l e = elim (equal_or_not v k) [
  | inl q ↦
      rw q (close_all-IsCancelledAt t k dg (update k Loop.close_io store) (closed_at k dg store e))
  | inr n ↦
      let rest : lookup i t ≡ some k = elim (Bool-cases (j == i)) [
        | inl q ↦ absurd (n (some-injective (rw q at l)))
        | inr q ↦ rw q at l
      ] in
      close_all-lookup t i k dg (update v Loop.close_io store) rest
        (update_other k v Loop.close_io store n ∙ e)
]

close_all-other :
    (t : Table) (k : ℕ) (dg : Dialogue) (store : List Dialogue)
    → get_elem? store k ≡ some dg
    → (get_elem? (close_all t store) k ≡ some dg) ⊎ IsCancelledAt k dg (close_all t store)
unfolding close_all
close_all-other [] k dg store e = inl e
close_all-other ((j, v) ∷ t) k dg store e = elim (equal_or_not v k) [
  | inl q ↦ inr (
      rw q (close_all-IsCancelledAt t k dg (update k Loop.close_io store) (closed_at k dg store e)))
  | inr n ↦
      close_all-other t k dg (update v Loop.close_io store)
        (update_other k v Loop.close_io store n ∙ e)
]

-- fini cancels every dialogue that is ready or negotiates under some identifier, and changes nothing
-- else of it. The maps are then empty, and the manager is closed.
pub fini_mgr-IsCancelledAt :
    (g : Manager) (i k : ℕ) (dg : Dialogue)
    → (lookup i g.dialogues ≡ some k) ⊎ (lookup i g.negotiating ≡ some k)
    → get_elem? g.store k ≡ some dg
    → IsCancelledAt k dg (fini_mgr g).store
      × ((fini_mgr g).dialogues ≡ [])
      × ((fini_mgr g).negotiating ≡ [])
      × ((fini_mgr g).mgr_ok ≡ false)
unfolding fini_mgr
fini_mgr-IsCancelledAt g i k dg (inl l) e = (
  close_all-IsCancelledAt g.negotiating k dg (close_all g.dialogues g.store)
      (close_all-lookup g.dialogues i k dg g.store l e),
  refl,
  refl,
  refl,
)
fini_mgr-IsCancelledAt g i k dg (inr l) e = (
  elim (close_all-other g.dialogues k dg g.store e) [
    | inl f ↦ close_all-lookup g.negotiating i k dg (close_all g.dialogues g.store) l f
    | inr c ↦ close_all-IsCancelledAt g.negotiating k dg (close_all g.dialogues g.store) c
  ],
  refl,
  refl,
  refl,
)
