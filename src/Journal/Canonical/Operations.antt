-- ===== src/Journal/Canonical/Operations.antt =====
-- normalizeOperation: what it returns it accepts, and returns again; every change of a record keeps that.
use mathlib.Core.Path.{subst}
use malt.Base.{
  inl, inr, ◌≤◌, ◌<◌, ◌≡◌, ◌≢◌, sym, ap, ◌∙◌, refl, true, false, not, ◌||◌, Bool, some, [], Text,
  text_eq, nat_eq, ◌==◌, ok, refuse_if, >>=-eq-ok, trim_space, valid_utf8, ltb, arith, Option-cases,
  Bool-cases,
}
use malt.Base.Trim.{trim_space_idem}
use malt.Base.Cids.{CidCodec}
use malt.Journal.Types.{Status, Operation, problem, bad_lifecycle, status_eq}
use malt.Journal.Normalize.{
  valid_status, normalize_intent, trim_lifecycle, check_lifecycle, normalize_result,
  normalize_operation,
}
use malt.Journal.Canonical.Intents.{IsCanonical, normalize-of_IsCanonical, normalize-IsCanonical}

module _ ⦃cids : CidCodec⦄ where
  -- What belongs to a status: the conflict, the replacement and the result root.
  abbrev pub Fields : Status → Text → Text → Text → Type 0
  Fields Status.conflicted c r root = (c ≢ []) × (r ≡ []) × (root ≡ [])
  Fields Status.completed c r root = (c ≡ []) × (r ≡ []) × (cids.parse root ≡ some root)
  Fields Status.superseded c r root = (c ≢ []) × (r ≢ []) × (root ≡ [])
  Fields (Status.unknown x) c r root = ⊥
  Fields st c r root = (c ≡ []) × (r ≡ []) × (root ≡ [])

  -- A record that every check of normalizeOperation passes unchanged.
  pub record IsSound (o : Operation) : Type 0 where
    pub intent : IsCanonical o.intent
    pub positive : 0 < o.sequence
    pub created : 0 < o.created_at
    pub ordered : o.created_at ≤ o.updated_at
    pub conflict_trimmed : trim_space o.conflict_id ≡ o.conflict_id
    pub replacement_trimmed : trim_space o.replacement_operation_id ≡ o.replacement_operation_id
    pub root_trimmed : trim_space o.result_root ≡ o.result_root
    pub conflict_valid : valid_utf8 o.conflict_id ≡ true
    pub replacement_valid : valid_utf8 o.replacement_operation_id ≡ true
    pub fields : Fields o.status o.conflict_id o.replacement_operation_id o.result_root

  Fields-valid : (st : Status) (c r root : Text) → Fields st c r root → valid_status st ≡ true
  unfolding valid_status
  Fields-valid Status.conflicted c r root f = refl
  Fields-valid (Status.unknown x) c r root f = absurd f
  Fields-valid _ c r root f = refl

  Fields-lifecycle :
      (o : Operation) (st : Status)
      → o.status ≡ st
      → valid_utf8 o.conflict_id ≡ true
      → valid_utf8 o.replacement_operation_id ≡ true
      → Fields st o.conflict_id o.replacement_operation_id o.result_root
      → check_lifecycle o ≡ ok tt
  unfolding check_lifecycle
  Fields-lifecycle o Status.conflicted e c r f = ground arith
  Fields-lifecycle o _ e c r f = ground arith

  Fields-result :
      (o : Operation) (st : Status)
      → o.status ≡ st
      → Fields st o.conflict_id o.replacement_operation_id o.result_root
      → normalize_result o ≡ ok o
  unfolding normalize_result
  Fields-result o Status.conflicted e f = ground arith
  Fields-result o _ e f = ground arith

  checks-valid :
      (o : Operation)
      → check_lifecycle o ≡ ok tt
      → (valid_utf8 o.conflict_id ≡ true) × (valid_utf8 o.replacement_operation_id ≡ true)
  unfolding check_lifecycle
  checks-valid o c = ground arith

  checked-Fields :
      (o : Operation) (st : Status)
      → o.status ≡ st
      → valid_status st ≡ true
      → check_lifecycle o ≡ ok tt
      → normalize_result o ≡ ok o
      → Fields st o.conflict_id o.replacement_operation_id o.result_root
  unfolding check_lifecycle normalize_result valid_status
  checked-Fields o Status.conflicted e v c r = ground arith
  checked-Fields o Status.completed e v c r = elim (Option-cases (cids.parse o.result_root)) [
    | inl n ↦ absurd (ground (arith, n))
    | inr (q, n) ↦ (ground arith, ground arith, ground (arith, n))
  ]
  checked-Fields o _ e v c r = ground arith

  abbrev refused_lifecycle : Operation → Bool
  refused_lifecycle o =
      o.sequence == 0
      || (not (valid_status o.status)
          || (o.created_at == 0 || (o.updated_at == 0 || ltb o.updated_at o.created_at)))

  lifecycle_passes : (o : Operation) → IsSound o → refused_lifecycle o ≡ false
  lifecycle_passes o c =
      ground (
        arith,
        Fields-valid o.status o.conflict_id o.replacement_operation_id o.result_root c.fields,
      )

  trimmed_whole : (o : Operation) → IsSound o → trim_lifecycle o ≡ o
  unfolding trim_lifecycle
  trimmed_whole o c = ground arith

  pub normalize-of_IsSound : (o : Operation) → IsSound o → normalize_operation o ≡ ok o
  unfolding normalize_operation
  normalize-of_IsSound o c =
      rw
        (
          normalize-of_IsCanonical o.intent c.intent,
          lifecycle_passes o c,
          trimmed_whole o c,
          Fields-lifecycle o o.status refl c.conflict_valid c.replacement_valid c.fields,
        )
        (Fields-result o o.status refl c.fields)

  -- What the check of the result root leaves of a trimmed record.
  abbrev Settles : Operation → Operation → Type 0
  Settles o p =
      (normalize_result p ≡ ok p)
      × (trim_lifecycle p ≡ p)
      × (check_lifecycle p ≡ check_lifecycle o)
      × (p.intent ≡ o.intent)
      × (p.sequence ≡ o.sequence)
      × (p.status ≡ o.status)
      × (p.created_at ≡ o.created_at)
      × (p.updated_at ≡ o.updated_at)

  root-Settles :
      (o : Operation) (r : Text)
      → o.status ≡ Status.completed
      → cids.parse o.result_root ≡ some r
      → trim_lifecycle o ≡ o
      → Settles o (record o { result_root = r })
  unfolding normalize_result trim_lifecycle check_lifecycle
  root-Settles o r e h t = (
    ground (arith, e, cids.parse_again o.result_root r h),
    ap {A = Operation} (λ x. record x { result_root = trim_space r }) t
        ∙ ap {B = Operation} (λ q. record o { result_root = q })
            (cids.parse_trimmed o.result_root r h),
    refl,
    refl,
    refl,
    refl,
    refl,
    refl,
  )

  result-Settles :
      (o p : Operation) → normalize_result o ≡ ok p → trim_lifecycle o ≡ o → Settles o p
  unfolding normalize_result
  result-Settles o p h t = elim (Bool-cases (o.status == Status.completed)) [
    | inl e ↦ elim (Option-cases (cids.parse o.result_root)) [
      | inl n ↦ absurd (ground (arith, e, n))
      | inr (r, n) ↦
          let same : record o { result_root = r } ≡ p = ground (arith, e, n) in
          subst (Settles o) same (root-Settles o r (ground (arith, e)) n t)
    ]
    | inr e ↦
        let same : o ≡ p = ground (arith, e) in
        subst (Settles o) same (h ∙ ap ok (sym same), t, refl, refl, refl, refl, refl, refl)
  ]

  trim_lifecycle_idem : (o : Operation) → trim_lifecycle (trim_lifecycle o) ≡ trim_lifecycle o
  unfolding trim_lifecycle
  trim_lifecycle_idem o = simp trim_space_idem

  -- What normalizeOperation returns is sound.
  pub normalize-IsSound : (raw o : Operation) → normalize_operation raw ≡ ok o → IsSound o
  unfolding normalize_operation trim_lifecycle
  normalize-IsSound raw o h =
      let (i, n, h1) = >>=-eq-ok (normalize_intent raw.intent) _ h in
      let (_, l, h2) = >>=-eq-ok (refuse_if (refused_lifecycle raw) (problem bad_lifecycle)) _ h1 in
      let trimmed = trim_lifecycle (record raw { intent = i }) in
      let (_, c, h3) = >>=-eq-ok (check_lifecycle trimmed) _ h2 in
      let (result, t, checks, intent, sequence, status, created, updated) =
        result-Settles trimmed o h3 (trim_lifecycle_idem (record raw { intent = i })) in
      record {
        intent = subst IsCanonical (sym intent) (normalize-IsCanonical raw.intent i n);
        positive = rw sequence (ground (arith, l));
        created = rw created (ground (arith, l));
        ordered = rw (created, updated) (ground (arith, l));
        conflict_trimmed = unfold trim_lifecycle in ap (λ x. x.conflict_id) t;
        replacement_trimmed = unfold trim_lifecycle in ap (λ x. x.replacement_operation_id) t;
        root_trimmed = unfold trim_lifecycle in ap (λ x. x.result_root) t;
        conflict_valid = (checks-valid o (checks ∙ c)).0;
        replacement_valid = (checks-valid o (checks ∙ c)).1;
        fields =
            checked-Fields o o.status refl (ap valid_status status ∙ ground (arith, l)) (checks ∙ c)
              result;
      }

  -- A record that normalization returned normalizes to itself.
  pub normalize_operation_idem :
      (raw o : Operation) → normalize_operation raw ≡ ok o → normalize_operation o ≡ ok o
  normalize_operation_idem raw o h = normalize-of_IsSound o (normalize-IsSound raw o h)
