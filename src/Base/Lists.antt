-- ===== src/Base/Lists.antt =====
-- Lists measured by native numbers, predicates on lists, and sorting.
use Prim.Native.Nat.{ℕ, suc, ◌+◌}
use mathlib.Core.Path.{◌≡◌}
use mathlib.Core.Bool.{Bool}
use mathlib.Core.List.{List, [], ◌∷◌, ◌++◌}
use native.Mathlib.Omega.{arith}
use mathlib.Core.Logic.{inl, inr}
use malt.Base.Tests.{if◌then◌else◌, Bool-cases}

module _ {ℓ} {A : Type ℓ} where
  abbrev pub length : List A → ℕ
  length [] = 0
  length (x ∷ xs) = suc (length xs)

  pub length-append : (xs ys : List A) → length (xs ++ ys) ≡ length xs + length ys
  length-append [] ys = omega arith
  length-append (x ∷ xs) ys = omega (arith, length-append xs ys)

  -- One element into its place, behind those that are not above it.
  unfoldable pub insert_sorted : (A → A → Bool) → A → List A → List A
  insert_sorted before x [] = x ∷ []
  insert_sorted before x (y ∷ ys) = if before x y then x ∷ y ∷ ys else y ∷ insert_sorted before x ys

  -- sort.Slice, for a `less` that tells all elements apart
  unfoldable pub sort : (A → A → Bool) → List A → List A
  unfolding insert_sorted
  sort before [] = []
  sort before (x ∷ xs) = insert_sorted before x (sort before xs)

  unfoldable pub select : (A → Bool) → List A → List A
  select p [] = []
  select p (x ∷ xs) = let rest = select p xs in if p x then x ∷ rest else rest

-- Every element satisfies the predicate.
abbrev pub All {ℓ κ} : {A : Type ℓ} → (A → Type κ) → List A → Type κ
All P [] = Unit
All P (x ∷ xs) = P x × All P xs

-- Some element satisfies it.
pub data Any {ℓ κ} {A : Type ℓ} (P : A → Type κ) : List A → Type (ℓ ⊔ κ) where
  here : {x : A} {xs : List A} → P x → Any P (x ∷ xs)
  there : {x : A} {xs : List A} → Any P xs → Any P (x ∷ xs)

module _ {ℓ κ} {A : Type ℓ} (P : A → Type κ) (before : A → A → Bool) where
  All-insert_sorted : (x : A) (xs : List A) → P x → All P xs → All P (insert_sorted before x xs)
  unfolding insert_sorted
  All-insert_sorted x [] p all = (p, tt)
  All-insert_sorted x (y ∷ ys) p all = elim (Bool-cases (before x y)) [
    | inl e ↦ rw e (p, all)
    | inr e ↦ rw e (all.0, All-insert_sorted x ys p all.1)
  ]

  -- Sorting loses and adds nothing.
  pub All-sort : (xs : List A) → All P xs → All P (sort before xs)
  unfolding sort
  All-sort [] all = tt
  All-sort (x ∷ xs) all = All-insert_sorted x (sort before xs) all.0 (All-sort xs all.1)

  All-uninsert : (x : A) (xs : List A) → All P (insert_sorted before x xs) → P x × All P xs
  unfolding insert_sorted
  All-uninsert x [] all = all
  All-uninsert x (y ∷ ys) all = elim (Bool-cases (before x y)) [
    | inl e ↦ rw e at all
    | inr e ↦
        let later = All-uninsert x ys ((rw e at all).1) in (later.0, ((rw e at all).0, later.1))
  ]

  pub All-unsort : (xs : List A) → All P (sort before xs) → All P xs
  unfolding sort
  All-unsort [] all = tt
  All-unsort (x ∷ xs) all =
      let later = All-uninsert x (sort before xs) all in (later.0, All-unsort xs later.1)
