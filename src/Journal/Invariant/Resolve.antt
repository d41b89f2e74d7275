-- ===== src/Journal/Invariant/Resolve.antt =====
-- ResolveConflict: a conflicted record gives way to a new one.
use mathlib.Core.Path.{subst, subst₂}
use malt.Base.{
  ◌≡◌, ◌≢◌, ◌<◌, ℕ, sym, ap, ◌∙◌, ◌⊎◌, inl, inr, refl, true, none, some, Text, Text-discrete,
  text_eq, ◌==◌, ==_iff, not, refuse_if, or_fail, or_fail-eq-ok, >>=-eq-ok, ok, lookup,
  Distinct-insert, lookup-insert, lookup-insert_cases, Option-cases, Bool-cases, present, arith,
  Result-cases,
}
use malt.Journal.Types.{Status, Intent, Operation, State, status_eq, intent_eq}
use malt.Journal.Store.Locked.{
  append_locked, new_operation, supersede, put_operation, resolved_before, resolve_now,
  resolve_locked,
}
use malt.Journal.Invariant.{Inv}
use malt.Journal.Invariant.Appends.{
  HasRoom, Added, append-Appended, Added-Inv, Added-Progress, Added-here, Added-old, Added-cases,
}
use malt.Journal.Invariant.Progress.{Progress, Progress-refl}
use malt.Journal.Invariant.Lifecycle.{Evolves, ◌⟶◌, supersede as superseding}

-- What stays of a record, whether it is superseded or not.
record Identity (o p : Operation) : Type 0 where
  intent : p.intent ≡ o.intent
  sequence : p.sequence ≡ o.sequence

-- A later record on the same branch of the same dataset is there.
abbrev HasReplacement : State → Operation → Type 0
HasReplacement s p =
    (r : Operation) × (lookup p.replacement_operation_id s.operations ≡ some r)
    × (p.sequence < r.sequence)
    × (r.dataset_id ≡ p.dataset_id)
    × (r.branch ≡ p.branch)

module _ (now : ℕ) (id rid : Text) (current next : Operation) (s : State)
    (found : lookup id s.operations ≡ some current) where
  -- Where a record comes from.
  superseded_cases :
      (j : Text) (p : Operation)
      → lookup j (put_operation id (supersede now rid current) s).operations ≡ some p
      → ((id ≡ j) × (supersede now rid current ≡ p)) ⊎ ((id ≢ j) × (lookup j s.operations ≡ some p))
  unfolding put_operation
  superseded_cases j p h = lookup-insert_cases id j (supersede now rid current) p s.operations h

  superseded_origin :
      (j : Text) (p : Operation)
      → lookup j (put_operation id (supersede now rid current) s).operations ≡ some p
      → (o : Operation) × (lookup j s.operations ≡ some o) × Identity o p
  unfolding supersede
  superseded_origin j p h = elim (superseded_cases j p h) [
    | inl (e, same) ↦ (
      current,
      subst (λ k. lookup k s.operations ≡ some current) e found,
      record { intent = ap (λ q. q.intent) (sym same); sequence = ap (λ q. q.sequence) (sym same) },
    )
    | inr (_, there) ↦ (p, there, record { intent = refl; sequence = refl })
  ]

  superseded_image :
      (j : Text) (o : Operation)
      → lookup j s.operations ≡ some o
      → (p : Operation) × (lookup j (put_operation id (supersede now rid current) s).operations
          ≡ some p)
        × Identity o p
  unfolding put_operation supersede
  superseded_image j o h = elim (Text-discrete id j) [
    | yes e ↦
        let same : current ≡ o = cc in
        (
          supersede now rid current,
          rw lookup-insert (ground arith),
          record { intent = ap (λ q. q.intent) same; sequence = ap (λ q. q.sequence) same },
        )
    | no e ↦ (o, rw lookup-insert (ground arith), record { intent = refl; sequence = refl })
  ]

  module _ (v : Inv s) (there : lookup rid s.operations ≡ some next)
      (later : current.sequence < next.sequence) (dataset : next.dataset_id ≡ current.dataset_id)
      (branch : next.branch ≡ current.branch)
      (unclaimed : (j : Text) (p : Operation)
        → lookup j s.operations ≡ some p
        → p.status ≡ Status.superseded
        → p.replacement_operation_id ≢ rid) where
    superseded_replaced :
        (j : Text) (p : Operation)
        → lookup j (put_operation id (supersede now rid current) s).operations ≡ some p
        → p.status ≡ Status.superseded
        → HasReplacement (put_operation id (supersede now rid current) s) p
    unfolding supersede
    superseded_replaced j p h e = elim (superseded_cases j p h) [
      | inl (_, same) ↦
          let (r, at, k) = superseded_image rid next there in
          subst (HasReplacement (put_operation id (supersede now rid current) s)) same (
            r,
            at,
            omega (arith, k.sequence),
            ap (λ i. i.dataset_id) k.intent ∙ dataset,
            ap (λ i. i.branch) k.intent ∙ branch,
          )
      | inr (_, old) ↦
          let (q, at, l, d, b) = v.replaced j p old e in
          let (r, at', k) = superseded_image p.replacement_operation_id q at in
          (
            r,
            at',
            omega (arith, k.sequence),
            ap (λ i. i.dataset_id) k.intent ∙ d,
            ap (λ i. i.branch) k.intent ∙ b,
          )
    ]

    supersede-Inv : Inv (put_operation id (supersede now rid current) s)
    unfolding supersede
    supersede-Inv = record {
      distinct =
          unfold put_operation in
          Distinct-insert id (supersede now rid current) s.operations v.distinct;
      positive = unfold put_operation in v.positive;
      keyed = λ j p h.
          let (o, at, k) = superseded_origin j p h in
          ap (λ i. i.operation_id) k.intent ∙ v.keyed j o at;
      bounded = λ j p h.
          let (o, at, k) = superseded_origin j p h in
          unfold put_operation in omega (arith, v.bounded j o at, k.sequence);
      used = λ j p h.
          let (o, at, k) = superseded_origin j p h in
          unfold put_operation in
          subst
            (λ r.
              (present (lookup j s.used_operation_ids) ≡ true)
              × (present (lookup r s.used_retry_ids) ≡ true))
            (ap (λ i. i.retry_id) (sym k.intent)) (v.used j o at);
      sequences_differ = λ i j o p h h' e.
          let (o', at, k) = superseded_origin i o h in
          let (p', at', k') = superseded_origin j p h' in
          v.sequences_differ i j o' p' at at' (sym k.sequence ∙ e ∙ k'.sequence);
      retries_differ = λ i j o p h h' e.
          let (o', at, k) = superseded_origin i o h in
          let (p', at', k') = superseded_origin j p h' in
          v.retries_differ i j o' p' at at'
            (sym (ap (λ i. i.retry_id) k.intent) ∙ e ∙ ap (λ i. i.retry_id) k'.intent);
      replaced = superseded_replaced;
      replacements_differ = λ i j o p h h' e e' same. elim (superseded_cases i o h) [
        | inl (a, b) ↦ elim (superseded_cases j p h') [
          | inl (c, d) ↦ sym a ∙ c
          | inr (c, d) ↦
              absurd (unclaimed j p d e' (sym same ∙ sym (ap (λ q. q.replacement_operation_id) b)))
        ]
        | inr (a, b) ↦ elim (superseded_cases j p h') [
          | inl (c, d) ↦
              absurd (unclaimed i o b e (same ∙ sym (ap (λ q. q.replacement_operation_id) d)))
          | inr (c, d) ↦ v.replacements_differ i j o p b d e e' same
        ]
      ];
    }

module _ (now : ℕ) (id : Text) (replacement : Intent) (initial : Status) (s : State)
    (original next : Operation) (t : State) where
  -- What a repeated resolution finds: the record gave way to the very replacement asked for.
  pub record IsResolvedBefore : Type 0 where
    pub unchanged : t ≡ s
    pub there : lookup id s.operations ≡ some original
    pub gone : original.status ≡ Status.superseded
    pub by : original.replacement_operation_id ≡ replacement.operation_id
    pub kept : lookup replacement.operation_id s.operations ≡ some next
    pub same : next.intent ≡ replacement

  -- What a resolution has done: nothing, since it was done before, or a new record and one that
  -- gives way to it.
  abbrev pub Resolved : Type 0
  Resolved =
      IsResolvedBefore
      ⊎ ((current : Operation) × (a : State) × (lookup id s.operations ≡ some current)
          × (current.status ≡ Status.conflicted)
          × (replacement.dataset_id ≡ current.dataset_id)
          × (replacement.branch ≡ current.branch)
          × Added next s a
          × (next ≡ new_operation now replacement initial s)
          × (original ≡ supersede now next.operation_id current)
          × (t ≡ put_operation id original a))

  now_Resolved :
      (current : Operation)
      → initial ≢ Status.superseded
      → lookup id s.operations ≡ some current
      → resolve_now now id replacement initial s current ≡ ok ((original, next), t)
      → Resolved
  unfolding resolve_now
  now_Resolved current n found h = elim (Result-cases (append_locked now replacement initial s)) [
    | inl ((o, a), e) ↦
        let same : o ≡ next = ground (arith, e) in
        let absent : lookup replacement.operation_id s.operations ≡ none = ground (arith, e) in
        elim (append-Appended now replacement initial s o a n e) [
          | inl (_, there, _) ↦ absurd (cc)
          | inr (added, made) ↦ inr (
            current,
            a,
            found,
            ground (arith, e),
            ground (arith, e),
            ground (arith, e),
            subst (λ q. Added q s a) same added,
            sym same ∙ made,
            ground (arith, e),
            ground (arith, e),
          )
        ]
    | inr (_, e) ↦ absurd (ground (arith, e))
  ]

  before_Resolved :
      (current : Operation)
      → lookup id s.operations ≡ some current
      → current.status ≡ Status.superseded
      → resolved_before replacement s current ≡ ok ((original, next), t)
      → IsResolvedBefore
  unfolding resolved_before
  before_Resolved current found gone h =
      let (_, by, h1) =
        >>=-eq-ok (refuse_if (not (current.replacement_operation_id == replacement.operation_id)) _)
          _ h in
      let (existing, kept, h2) =
        >>=-eq-ok (or_fail (lookup replacement.operation_id s.operations) _) _ h1 in
      let (_, same, h3) = >>=-eq-ok (refuse_if (not (existing.intent == replacement)) _) _ h2 in
      let one : current ≡ original = cc (h3) in
      let two : existing ≡ next = cc (h3) in
      let kept' = or_fail-eq-ok (lookup replacement.operation_id s.operations) _ kept in
      record {
        unchanged = cc (h3);
        there = found ∙ ap some one;
        gone = ap (λ q. q.status) (sym one) ∙ gone;
        by = ap (λ q. q.replacement_operation_id) (sym one) ∙ ground (arith, by);
        kept = kept' ∙ ap some two;
        same = ap (λ q. q.intent) (sym two) ∙ ground (arith, same);
      }

  -- A resolution that succeeds with an initial status that is not superseded changed nothing,
  -- and returns the record, which had given way to the replacement asked for, and that
  -- replacement, or found the operation conflicted, added a fresh record for the replacement on
  -- the same dataset and branch, and let the old record give way to it.
  pub resolve-Resolved :
      initial ≢ Status.superseded
      → resolve_locked now id replacement initial s ≡ ok ((original, next), t)
      → Resolved
  unfolding resolve_locked
  resolve-Resolved n h = elim (Option-cases (lookup id s.operations)) [
    | inl e ↦ absurd (ground (arith, e))
    | inr (current, e) ↦ elim (Bool-cases (current.status == Status.superseded)) [
      | inl old ↦ inl (
          before_Resolved current e ((==_iff current.status Status.superseded).0 old)
            (ground (arith, e, old)))
      | inr new ↦ now_Resolved current n e (ground (arith, e, new))
    ]
  ]

  pub Resolved-Inv : Resolved → Inv s → HasRoom s → Inv t
  Resolved-Inv (inl before) v room = rw (before.unchanged) v
  Resolved-Inv (inr (current, a, found, _, dataset, branch, added, made, gone, state)) v room =
      let intent : next.intent ≡ replacement = unfold new_operation in ap (λ q. q.intent) made in
      rw (state, gone)
        (supersede-Inv now id next.operation_id current next a (Added-old added id current found)
          (Added-Inv added v room) (Added-here added)
          (omega (arith, added.last, v.bounded id current found))
          (ap (λ i. i.dataset_id) intent ∙ dataset) (ap (λ i. i.branch) intent ∙ branch)
          λ j p h e claim. elim (Added-cases added j p h) [
            | inl (_, same) ↦ added.not_superseded (ap (λ q. q.status) same ∙ e)
            | inr old ↦ let (r, there, _, _, _) = v.replaced j p old e in cc added.absent
          ])

  superseded-Evolves :
      (current : Operation)
      → current.status ≡ Status.conflicted
      → Evolves current (supersede now next.operation_id current)
  unfolding supersede
  superseded-Evolves current e = record {
    intent = refl;
    sequence = refl;
    created = refl;
    status = inr (subst (λ x. x ⟶ Status.superseded) (sym e) superseding);
  }

  pub Resolved-Progress : Resolved → Progress s t
  Resolved-Progress (inl before) = rw (before.unchanged) (Progress-refl s)
  Resolved-Progress (inr (current, a, found, active, _, _, added, _, gone, state)) =
      let before = Added-Progress added in
      let found' = Added-old added id current found in
      rw (state, gone)
        (record {
          evolves = λ j o p h k.
              elim (superseded_cases now id next.operation_id current next a found' j p k) [
                | inl (e, same) ↦ subst₂ Evolves (cc) same (superseded-Evolves current active)
                | inr (_, old) ↦ before.evolves j o p h old
              ];
          keeps_ids = λ j h. unfold put_operation in before.keeps_ids j h;
          keeps_retries = λ j h. unfold put_operation in before.keeps_retries j h;
          fresh = λ j p h k.
              elim (superseded_cases now id next.operation_id current next a found' j p k) [
                | inl (e, same) ↦ absurd (cc)
                | inr (_, old) ↦ before.fresh j p h old
              ];
        })
