-- ===== src/Journal/Invariant/Transitions.antt =====
-- `transition` of one record.
use mathlib.Core.Path.{subst}
use malt.Base.{
  Text-discrete, holds, ℕ, ◌≡◌, ◌≢◌, ◌⊎◌, inl, inr, refl, ap, true, some, Text, text_eq, ◌==◌,
  if◌then◌else◌, ok, lookup, Distinct-insert, lookup-insert, lookup-insert_cases, sym, arith,
  Option-cases,
}
use malt.Journal.Types.{Status, Operation, State}
use malt.Journal.Store.Locked.{
  allowed_status_transition, change_status, put_operation, transition_found, transition_locked,
}
use malt.Journal.Invariant.{Inv}
use malt.Journal.Invariant.Rewrites.{Kept, Kept-refl, Rewrites, Rewrites-Inv}
use malt.Journal.Invariant.Progress.{Progress, Progress-refl, Rewrites-Progress}
use malt.Journal.Invariant.Lifecycle.{Evolves, Evolves-refl, allowed-⟶, allowed-ne-superseded}

-- The record at one key changed by `f`.
abbrev pub at_key : Text → (Operation → Operation) → Text → Operation → Operation
at_key id f j o = if id == j then f o else o

pub at_key-elim :
    (P : Operation → Type 0) (id j : Text) (f : Operation → Operation) (o : Operation)
    → (id ≡ j → P (f o))
    → P o
    → P (at_key id f j o)
at_key-elim P id j f o here elsewhere =
    elim (Text-discrete id j) as (λ d. P (if holds d then f o else o)) [
      | yes e ↦ here e
      | no _ ↦ elsewhere
    ]

-- A record put in the place of one that it keeps.
pub put-Rewrites :
    (id : Text) (s : State) (o done : Operation)
    → lookup id s.operations ≡ some o
    → Kept o done
    → Rewrites (at_key id (λ _. done)) s (put_operation id done s)
unfolding put_operation
put-Rewrites id s o done h k = record {
  distinct = Distinct-insert id done s.operations;
  next = refl;
  ids = refl;
  retries = refl;
  at = λ j. rw lookup-insert (ground arith);
  kept = λ j p e.
      at_key-elim (λ q. Kept p q) id j (λ _. done) p
        (λ same. subst (λ q. Kept q done) (ground arith) k) (Kept-refl p);
}

pub put-Evolves :
    (id : Text) (s : State) (o done : Operation)
    → lookup id s.operations ≡ some o
    → Evolves o done
    → (j : Text) (p : Operation) → lookup j s.operations ≡ some p
    → Evolves p (at_key id (λ _. done) j p)
put-Evolves id s o done h v j p e =
    at_key-elim (λ q. Evolves p q) id j (λ _. done) p
      (λ same. subst (λ q. Evolves q done) (ground arith) v) (Evolves-refl p)

pub put-cases :
    (id j : Text) (done p : Operation) (s : State)
    → lookup j (put_operation id done s).operations ≡ some p
    → ((id ≡ j) × (done ≡ p)) ⊎ ((id ≢ j) × (lookup j s.operations ≡ some p))
unfolding put_operation
put-cases id j done p s h = lookup-insert_cases id j done p s.operations h

module _ (now : ℕ) (id : Text) (next : Status) (conflict_id result_root : Text) (s : State)
    (done : Operation) (t : State) where
  -- Either nothing changed, or an allowed transition was made.
  abbrev Made : Operation → Type 0
  Made o =
      ((t ≡ s) × (o ≡ done))
      ⊎ ((allowed_status_transition o.status next ≡ true)
          × (done ≡ change_status now next conflict_id result_root o)
          × (t ≡ put_operation id done s))

  found-Made :
      (o : Operation)
      → transition_found now id next conflict_id result_root s o ≡ ok (done, t)
      → Made o
  unfolding transition_found allowed_status_transition change_status put_operation
  found-Made o h = ground arith

  pub transition-Made :
      transition_locked now id next conflict_id result_root s ≡ ok (done, t)
      → (o : Operation) × (lookup id s.operations ≡ some o) × Made o
  unfolding transition_locked
  transition-Made h = elim (Option-cases (lookup id s.operations)) [
    | inl e ↦ absurd (ground (arith, e))
    | inr (o, e) ↦ (o, e, found-Made o (rw (e, transition_locked) at h))
  ]

  change-Kept :
      (o : Operation)
      → allowed_status_transition o.status next ≡ true
      → done ≡ change_status now next conflict_id result_root o
      → Kept o done
  unfolding change_status
  change-Kept o allowed e = record {
    intent = ground arith;
    sequence = ground arith;
    created = ground arith;
    supersession = inr (
      (allowed-ne-superseded o.status next allowed).0,
      rw e ((allowed-ne-superseded o.status next allowed).1),
    );
  }

  change-Evolves :
      (o : Operation)
      → allowed_status_transition o.status next ≡ true
      → done ≡ change_status now next conflict_id result_root o
      → Evolves o done
  unfolding change_status
  change-Evolves o allowed e = record {
    intent = ground arith;
    sequence = ground arith;
    created = ground arith;
    status = rw e (inr (allowed-⟶ o.status next allowed));
  }

  Made-Inv : (o : Operation) → lookup id s.operations ≡ some o → Made o → Inv s → Inv t
  Made-Inv o h m v = elim m [
    | inl (same, _) ↦ rw same v
    | inr (allowed, e, e') ↦
        rw e' (Rewrites-Inv (put-Rewrites id s o done h (change-Kept o allowed e)) v)
  ]

  Made-Progress : (o : Operation) → lookup id s.operations ≡ some o → Made o → Progress s t
  Made-Progress o h m = elim m [
    | inl (same, _) ↦ rw same (Progress-refl s)
    | inr (allowed, e, e') ↦ rw e' (
        Rewrites-Progress (put-Rewrites id s o done h (change-Kept o allowed e))
          (put-Evolves id s o done h (change-Evolves o allowed e)))
  ]

  pub transition-Inv :
      transition_locked now id next conflict_id result_root s ≡ ok (done, t) → Inv s → Inv t
  transition-Inv h = let (o, found, m) = transition-Made h in Made-Inv o found m

  pub transition-Progress :
      transition_locked now id next conflict_id result_root s ≡ ok (done, t) → Progress s t
  transition-Progress h = let (o, found, m) = transition-Made h in Made-Progress o found m

  -- A property that the change of the record keeps holds of every record afterwards.
  pub transition-keeps :
      (P : Operation → Type 0)
      → ((o : Operation)
          → lookup id s.operations ≡ some o
          → allowed_status_transition o.status next ≡ true
          → P (change_status now next conflict_id result_root o))
      → ((j : Text) (o : Operation) → lookup j s.operations ≡ some o → P o)
      → transition_locked now id next conflict_id result_root s ≡ ok (done, t)
      → (j : Text) (p : Operation) → lookup j t.operations ≡ some p
      → P p
  transition-keeps P changed before h j p k =
      let (o, found, made) = transition-Made h in
      elim made [
        | inl (same, _) ↦ before j p (subst (λ x. lookup j x.operations ≡ some p) same k)
        | inr (allowed, e, e') ↦
            elim (put-cases id j done p s (subst (λ x. lookup j x.operations ≡ some p) e' k)) [
              | inl (_, same) ↦ subst P same (subst P (sym e) (changed o found allowed))
              | inr (_, old) ↦ before j p old
            ]
      ]

  -- No tombstone comes or goes, and no sequence is taken.
  pub transition-rest :
      transition_locked now id next conflict_id result_root s ≡ ok (done, t)
      → (t.used_operation_ids ≡ s.used_operation_ids)
        × (t.used_retry_ids ≡ s.used_retry_ids)
        × (t.next_sequence ≡ s.next_sequence)
  unfolding put_operation
  transition-rest h =
      let (o, found, made) = transition-Made h in
      elim made [
        | inl (same, _) ↦ (
          ap (λ x. x.used_operation_ids) same,
          ap (λ x. x.used_retry_ids) same,
          ap (λ x. x.next_sequence) same,
        )
        | inr (_, _, e) ↦ (
          ap (λ x. x.used_operation_ids) e,
          ap (λ x. x.used_retry_ids) e,
          ap (λ x. x.next_sequence) e,
        )
      ]
