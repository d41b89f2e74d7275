-- ===== src/Journal/Invariant/Batches.antt =====
-- The batch operations: either every record of the batch is settled, or nothing changes.
use mathlib.Core.Path.{subst}
use malt.Base.{
  ◌≡◌, sym, ◌∙◌, ◌⊎◌, inl, inr, refl, ◌||◌, true, false, Bool, some, List, [], ◌∷◌, Text,
  Text-discrete, text_eq, ◌==◌, ==_iff, if◌then◌else◌, ok, >>=-eq-ok, Map, lookup, insert, Distinct,
  Distinct-insert, lookup-insert, map_option, map_option-eq-some, All, Option-cases, Bool-cases,
  arith, sort,
}
use malt.Journal.Types.{Status, Operation, State, Outcome, status_eq}
use malt.Journal.Normalize.{member}
use malt.Journal.Store.Batches.{
  select_batch, settle, store_settled, settle_all, by_sequence, run_batch,
}
use malt.Journal.Invariant.{Inv}
use malt.Journal.Invariant.Rewrites.{Kept, Kept-refl, Rewrites, Rewrites-Inv}
use malt.Journal.Invariant.Progress.{Progress, Rewrites-Progress}
use malt.Journal.Invariant.Lifecycle.{Evolves, Evolves-refl}

-- Some record of the list has the identity.
hit : Text → List Operation → Bool
hit j [] = false
hit j (o ∷ os) = o.operation_id == j || hit j os

-- The records of a batch settled, all others kept.
pub settle_at : Status → (Operation → Operation) → List Text → Text → Operation → Operation
settle_at target change ids j o = if member j ids then settle target change o else o

module _ (target : Status) (change : Operation → Operation) (all : Map Operation) where
  -- What a map may hold at a key while a batch is stored.
  abbrev Between : Text → Map Operation → Type 0
  Between j m =
      (lookup j m ≡ lookup j all) ⊎ (lookup j m ≡ map_option (settle target change) (lookup j all))

  store_one :
      (o : Operation) (m : Map Operation) (j : Text)
      → lookup o.operation_id all ≡ some o
      → Between j m
      → let m' = if o.status == target then m else insert o.operation_id (change o) m in
        lookup j m' ≡ (
          if o.operation_id == j
          then map_option (settle target change) (lookup j all)
          else lookup j m)
  unfolding settle
  store_one o m j h b = elim (Bool-cases (o.operation_id == j)) [
    | inl e ↦
        let there : lookup j all ≡ some o =
          subst (λ k. lookup k all ≡ some o) ((==_iff o.operation_id j).0 e) h in
        rw (e, there) (ground (arith, lookup-insert o.operation_id j (change o) m))
    | inr e ↦ rw e (ground (arith, lookup-insert o.operation_id j (change o) m))
  ]

  lookup-store_settled :
      (os : List Operation) (m : Map Operation) (j : Text)
      → All (λ o. lookup o.operation_id all ≡ some o) os
      → Between j m
      → lookup j (store_settled target change os m)
        ≡ (if hit j os then map_option (settle target change) (lookup j all) else lookup j m)
  unfolding store_settled hit
  lookup-store_settled [] m j a b = refl
  lookup-store_settled (o ∷ os) m j a b =
      let m' : Map Operation =
        if o.status == target then m else insert o.operation_id (change o) m in
      let one = store_one o m j a.0 b in
      elim (Bool-cases (o.operation_id == j)) [
        | inl e ↦ ground (arith, one, lookup-store_settled os m' j a.1 (inr (ground (arith, one))))
        | inr e ↦ ground (arith, one, lookup-store_settled os m' j a.1 (ground (arith, one)))
      ]

Distinct-store_settled :
    (target : Status) (change : Operation → Operation) (os : List Operation) (m : Map Operation)
    → Distinct m
    → Distinct (store_settled target change os m)
unfolding store_settled
Distinct-store_settled target change [] m d = d
Distinct-store_settled target change (o ∷ os) m d = elim (Bool-cases (o.status == target)) [
  | inl e ↦ rw e (Distinct-store_settled target change os m d)
  | inr e ↦ rw e (
      Distinct-store_settled target change os (insert o.operation_id (change o) m)
        (Distinct-insert o.operation_id (change o) m d))
]

pub settle_at-elim :
    (P : Operation → Type 0) (target : Status) (change : Operation → Operation) (ids : List Text)
    (j : Text) (o : Operation)
    → (member j ids ≡ true → P (settle target change o))
    → P o
    → P (settle_at target change ids j o)
unfolding settle_at
settle_at-elim P target change ids j o inside outside = elim (Bool-cases (member j ids)) [
  | inl e ↦ rw e (inside e)
  | inr e ↦ rw e outside
]

-- A check, a target status and a change that keep the invariant and take an edge of the life cycle.
pub record IsSettling (check : Operation → Outcome (Unit {0})) (target : Status)
    (change : Operation → Operation) : Type 0 where
  pub kept : (o : Operation) → check o ≡ ok tt → Kept o (settle target change o)
  pub evolves : (o : Operation) → check o ≡ ok tt → Evolves o (settle target change o)

-- What a selection that succeeded has found.
data Selected (check : Operation → Outcome (Unit {0})) (all : Map Operation)
    : List Text → List Operation → Type 0 where
  none_left : Selected check all [] []
  one_more :
      {id : Text} {ids : List Text} {o : Operation} {os : List Operation}
      → lookup id all ≡ some o
      → check o ≡ ok tt
      → Selected check all ids os
      → Selected check all (id ∷ ids) (o ∷ os)

module _ (check : Operation → Outcome (Unit {0})) (all : Map Operation) where
  select-Selected :
      (ids : List Text) (os : List Operation)
      → select_batch check all ids ≡ ok os
      → Selected check all ids os
  unfolding select_batch
  select-Selected [] os h = subst (Selected check all []) (ground arith) none_left
  select-Selected (id ∷ ids) os h = elim (Option-cases (lookup id all)) [
    | inl e ↦ absurd (ground (arith, e))
    | inr (o, e) ↦
        let (_, passed, h1) = >>=-eq-ok (check o) _ (rw (e, select_batch) at h) in
        let (rest, found, h2) = >>=-eq-ok (select_batch check all ids) _ h1 in
        let same : o ∷ rest ≡ os = ground arith in
        subst (Selected check all (id ∷ ids)) same
          (one_more e (ground arith) (select-Selected ids rest found))
  ]

  Selected-checked :
      (ids : List Text) (os : List Operation) (j : Text) (o : Operation)
      → Selected check all ids os
      → member j ids ≡ true
      → lookup j all ≡ some o
      → check o ≡ ok tt
  unfolding member
  Selected-checked ids os j o none_left h k = cc
  Selected-checked (id ∷ ids) (p ∷ os) j o (one_more found passed rest) h k =
      elim (Text-discrete id j) [
        | yes e ↦ let same : p ≡ o = cc in subst (λ q. check q ≡ ok tt) same passed
        | no e ↦ Selected-checked ids os j o rest (ground arith) k
      ]

  module _
      (keyed : (id : Text) (o : Operation) → lookup id all ≡ some o → o.operation_id ≡ id) where
    Selected-keyed :
        (ids : List Text) (os : List Operation)
        → Selected check all ids os
        → All (λ o. lookup o.operation_id all ≡ some o) os
    Selected-keyed ids os none_left = tt
    Selected-keyed (id ∷ ids) (o ∷ os) (one_more found _ rest) = (
      subst (λ k. lookup k all ≡ some o) (sym (keyed id o found)) found,
      Selected-keyed ids os rest,
    )

    hit-member :
        (ids : List Text) (os : List Operation) (j : Text)
        → Selected check all ids os
        → hit j os ≡ member j ids
    unfolding hit member
    hit-member ids os j none_left = refl
    hit-member (id ∷ ids) (o ∷ os) j (one_more found _ rest) =
        rw (keyed id o found, hit-member ids os j rest)

module _ (check : Operation → Outcome (Unit {0})) (target : Status) (change : Operation → Operation)
    (law : IsSettling check target change) (ids : List Text) (s : State) (v : Inv s)
    (done : List Operation) (t : State) where
  abbrev Batched : Type 0
  Batched =
      (os : List Operation) × Selected check s.operations ids os
      × (done ≡ sort by_sequence (settle_all target change os))
      × (t ≡ record s { operations = store_settled target change os s.operations })

  batch-Batched : run_batch check target change ids s ≡ ok (done, t) → Batched
  unfolding run_batch
  batch-Batched h =
      let (os, found, h1) = >>=-eq-ok (select_batch check s.operations ids) _ h in
      (os, select-Selected check s.operations ids os found, ground arith, ground arith)

  settled-Rewrites :
      (os : List Operation)
      → Selected check s.operations ids os
      → Rewrites
          (settle_at target change ids)
          s
          (record s { operations = store_settled target change os s.operations })
  unfolding settle_at
  settled-Rewrites os sel = record {
    distinct = Distinct-store_settled target change os s.operations;
    next = refl;
    ids = refl;
    retries = refl;
    at = λ j.
        let stored =
          lookup-store_settled target change s.operations os s.operations j
            (Selected-keyed check s.operations v.keyed ids os sel) (inl refl) in
        let same = hit-member check s.operations v.keyed ids os j sel in
        ground (arith, stored, same);
    kept = λ j o e.
        settle_at-elim (Kept o) target change ids j o
          (λ m. law.kept o (Selected-checked check s.operations ids os j o sel m e)) (Kept-refl o);
  }

  settled-Evolves :
      (os : List Operation)
      → Selected check s.operations ids os
      → (j : Text) (o : Operation) → lookup j s.operations ≡ some o
      → Evolves o (settle_at target change ids j o)
  settled-Evolves os sel j o e =
      settle_at-elim (Evolves o) target change ids j o
        (λ m. law.evolves o (Selected-checked check s.operations ids os j o sel m e))
        (Evolves-refl o)

  pub batch-Rewrites :
      run_batch check target change ids s ≡ ok (done, t)
      → Rewrites (settle_at target change ids) s t
  batch-Rewrites h = let (os, sel, _, e) = batch-Batched h in rw e (settled-Rewrites os sel)

  pub batch-Inv : run_batch check target change ids s ≡ ok (done, t) → Inv t
  batch-Inv h = Rewrites-Inv (batch-Rewrites h) v

  pub batch-Progress : run_batch check target change ids s ≡ ok (done, t) → Progress s t
  batch-Progress h =
      let (os, sel, _, _) = batch-Batched h in
      Rewrites-Progress (batch-Rewrites h) (settled-Evolves os sel)

  -- A property that settling a checked record keeps holds of every record afterwards.
  pub batch-keeps :
      (P : Operation → Type 0)
      → ((j : Text) (o : Operation)
          → lookup j s.operations ≡ some o
          → check o ≡ ok tt
          → P o
          → P (settle target change o))
      → ((j : Text) (o : Operation) → lookup j s.operations ≡ some o → P o)
      → run_batch check target change ids s ≡ ok (done, t)
      → (j : Text) (p : Operation) → lookup j t.operations ≡ some p
      → P p
  batch-keeps P keep before h j p k =
      let (os, sel, _, _) = batch-Batched h in
      let (o, found, same) =
        map_option-eq-some (settle_at target change ids j) (lookup j s.operations)
          (sym ((batch-Rewrites h).at j) ∙ k) in
      subst P same (
        settle_at-elim P target change ids j o
          (λ m.
            keep j o found (Selected-checked check s.operations ids os j o sel m found)
              (before j o found))
          (before j o found))
