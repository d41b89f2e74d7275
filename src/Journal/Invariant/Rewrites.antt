-- ===== src/Journal/Invariant/Rewrites.antt =====
-- Operations that change records in place keep the invariant, if no record gains or loses its place
-- among the superseded ones.
use malt.Base.{
  ◌<◌, ◌≡◌, ◌≢◌, ◌⊎◌, inl, inr, refl, sym, ap, ◌∙◌, some, Text, lookup, Distinct, map_option,
  map_option-eq-some,
}
use malt.Journal.Types.{Status, Operation, State}
use malt.Journal.Invariant.{Inv}

-- What stays of a record that is changed in place.
pub record Kept (o o' : Operation) : Type 0 where
  pub intent : o'.intent ≡ o.intent
  pub sequence : o'.sequence ≡ o.sequence
  pub created : o'.created_at ≡ o.created_at
  pub supersession : (o' ≡ o) ⊎ ((o.status ≢ Status.superseded) × (o'.status ≢ Status.superseded))

pub Kept-refl : (o : Operation) → Kept o o
Kept-refl o = record { intent = refl; sequence = refl; created = refl; supersession = inl refl }

-- `t` is `s` with each record changed by `f`.
pub record Rewrites (f : Text → Operation → Operation) (s t : State) : Type 0 where
  pub distinct : Distinct s.operations → Distinct t.operations
  pub next : t.next_sequence ≡ s.next_sequence
  pub ids : t.used_operation_ids ≡ s.used_operation_ids
  pub retries : t.used_retry_ids ≡ s.used_retry_ids
  pub at : (j : Text) → lookup j t.operations ≡ map_option (f j) (lookup j s.operations)
  pub kept : (j : Text) (o : Operation) → lookup j s.operations ≡ some o → Kept o (f j o)

pub origin :
    {f : Text → Operation → Operation} {s t : State}
    → Rewrites f s t
    → (j : Text) (p : Operation) → lookup j t.operations ≡ some p
    → (o : Operation) × (lookup j s.operations ≡ some o) × Kept o p
origin {f} {s} {t} r j p h =
    let (o, found, e) = map_option-eq-some (f j) (lookup j s.operations) (sym (r.at j) ∙ h) in
    (o, found, rw (← e) (r.kept j o found))

-- A superseded record was superseded before, and is the same.
pub unchanged_of_superseded : {o p : Operation} → Kept o p → p.status ≡ Status.superseded → p ≡ o
unchanged_of_superseded k e = elim k.supersession [ inl same ↦ same | inr d ↦ absurd (d.1 e) ]

-- A record that is there stays there.
pub image :
    {f : Text → Operation → Operation} {s t : State}
    → Rewrites f s t
    → (j : Text) (o : Operation) → lookup j s.operations ≡ some o
    → (p : Operation) × (lookup j t.operations ≡ some p) × Kept o p
image {f} r j o h = (f j o, rw (r.at j, h), r.kept j o h)

Rewrites-replaced :
    {f : Text → Operation → Operation} {s t : State}
    → Rewrites f s t
    → Inv s
    → (o : Operation)
    → ((r : Operation) × (lookup o.replacement_operation_id s.operations ≡ some r)
        × (o.sequence < r.sequence)
        × (r.dataset_id ≡ o.dataset_id)
        × (r.branch ≡ o.branch))
    → (r : Operation) × (lookup o.replacement_operation_id t.operations ≡ some r)
      × (o.sequence < r.sequence)
      × (r.dataset_id ≡ o.dataset_id)
      × (r.branch ≡ o.branch)
Rewrites-replaced r v o (q, found, later, dataset, branch) =
    let (q', found', k) = image r o.replacement_operation_id q found in
    (
      q',
      found',
      rw k.sequence later,
      ap (λ i. i.dataset_id) k.intent ∙ dataset,
      ap (λ i. i.branch) k.intent ∙ branch,
    )

pub Rewrites-Inv : {f : Text → Operation → Operation} {s t : State} → Rewrites f s t → Inv s → Inv t
Rewrites-Inv {f} {s} {t} r v = record {
  distinct = r.distinct v.distinct;
  positive = rw r.next v.positive;
  keyed = λ j p h.
      let (o, found, k) = origin r j p h in
      rw (ap (λ i. i.operation_id) k.intent) (v.keyed j o found);
  bounded =
      λ j p h. let (o, found, k) = origin r j p h in rw (r.next, k.sequence) (v.bounded j o found);
  used = λ j p h.
      let (o, found, k) = origin r j p h in
      rw (r.ids, r.retries, ap (λ i. i.retry_id) k.intent) (v.used j o found);
  sequences_differ = λ i j o p h h' e.
      let (o', found, k) = origin r i o h in
      let (p', found', k') = origin r j p h' in
      v.sequences_differ i j o' p' found found' (sym k.sequence ∙ e ∙ k'.sequence);
  retries_differ = λ i j o p h h' e.
      let (o', found, k) = origin r i o h in
      let (p', found', k') = origin r j p h' in
      v.retries_differ i j o' p' found found'
        (sym (ap (λ i. i.retry_id) k.intent) ∙ e ∙ ap (λ i. i.retry_id) k'.intent);
  replaced = λ j p h e.
      let (o, found, k) = origin r j p h in
      let same : p ≡ o = unchanged_of_superseded k e in
      Rewrites-replaced r v p (v.replaced j p (found ∙ ap some (sym same)) e);
  replacements_differ = λ i j o p h h' e e'.
      let (o', found, k) = origin r i o h in
      let (p', found', k') = origin r j p h' in
      v.replacements_differ i j o p (found ∙ ap some (sym (unchanged_of_superseded k e)))
        (found' ∙ ap some (sym (unchanged_of_superseded k' e'))) e e';
}
