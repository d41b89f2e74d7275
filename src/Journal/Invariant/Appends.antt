-- ===== src/Journal/Invariant/Appends.antt =====
-- appendLocked: a record that is new, or that was there with the same intent.
use mathlib.Core.Path.{subst}
use native.Mathlib.Nat.{mod-eq_of_lt}
use malt.Base.{
  ℕ, ◌+◌, ◌^◌, ◌<◌, ◌≡◌, ◌≢◌, ◌⊎◌, inl, inr, sym, ap, ◌∙◌, true, false, Bool, Map, none, some, Text,
  text_eq, ok, lookup, insert, Distinct-insert, lookup-insert, lookup-insert_cases,
  lookup-insert_self, present, arith, Option-cases,
}
use malt.Journal.Types.{Status, Intent, Operation, State, intent_eq, u64}
use malt.Journal.Store.Locked.{new_operation, record_operation, append_new, append_locked}
use malt.Journal.Invariant.{Inv}
use malt.Journal.Invariant.Progress.{Progress, Progress-refl, same-Evolves}

-- `t` is `s` with one more record, whose identities were never used.
pub record Added (o : Operation) (s t : State) : Type 0 where
  pub absent : lookup o.operation_id s.operations ≡ none
  pub unused_id : present (lookup o.operation_id s.used_operation_ids) ≡ false
  pub unused_retry : present (lookup o.retry_id s.used_retry_ids) ≡ false
  pub last : o.sequence ≡ s.next_sequence
  pub not_superseded : o.status ≢ Status.superseded
  pub state : t ≡ record_operation o s

-- The counter has not come to its end.
abbrev pub HasRoom : State → Type 0
HasRoom s = s.next_sequence + 1 < 2 ^ 64

module _ (o : Operation) (s : State) (absent : lookup o.operation_id s.operations ≡ none) where
  -- Where a record of the longer journal comes from.
  added_cases :
      (j : Text) (p : Operation)
      → lookup j (record_operation o s).operations ≡ some p
      → ((o.operation_id ≡ j) × (o ≡ p)) ⊎ (lookup j s.operations ≡ some p)
  unfolding record_operation
  added_cases j p h = elim (lookup-insert_cases o.operation_id j o p s.operations h) [
    | inl e ↦ inl e
    | inr (_, e) ↦ inr e
  ]

  -- A record that was there is still there.
  added_old :
      (j : Text) (p : Operation)
      → lookup j s.operations ≡ some p
      → lookup j (record_operation o s).operations ≡ some p
  unfolding record_operation
  added_old j p h = rw lookup-insert (ground arith)

  -- What tells the old records apart tells all apart, if the new one differs from each.
  added_unique :
      (R : Operation → Operation → Type 0)
      → ((i j : Text) (p q : Operation)
          → lookup i s.operations ≡ some p
          → lookup j s.operations ≡ some q
          → R p q
          → i ≡ j)
      → ((j : Text) (q : Operation) → lookup j s.operations ≡ some q → ¬ R o q)
      → ((j : Text) (q : Operation) → lookup j s.operations ≡ some q → ¬ R q o)
      → (i j : Text) (p q : Operation) → lookup i (record_operation o s).operations ≡ some p
      → lookup j (record_operation o s).operations ≡ some q
      → R p q
      → i ≡ j
  added_unique R old left right i j p q h k r = elim (added_cases i p h) [
    | inl (a, b) ↦ elim (added_cases j q k) [
      | inl (c, _) ↦ sym a ∙ c
      | inr c ↦ absurd (left j q c (subst (λ x. R x q) (sym b) r))
    ]
    | inr a ↦ elim (added_cases j q k) [
      | inl (_, d) ↦ absurd (right i p a (subst (λ x. R p x) (sym d) r))
      | inr c ↦ old i j p q a c r
    ]
  ]

SameReplacement : Operation → Operation → Type 0
SameReplacement p q =
    (p.status ≡ Status.superseded)
    × (q.status ≡ Status.superseded)
    × (p.replacement_operation_id ≡ q.replacement_operation_id)

module _ (o : Operation) (s : State) (v : Inv s) (room : HasRoom s) where
  wrap_free : u64 (s.next_sequence + 1) ≡ s.next_sequence + 1
  wrap_free = mod-eq_of_lt room

  module _ (absent : lookup o.operation_id s.operations ≡ none)
      (unused_retry : present (lookup o.retry_id s.used_retry_ids) ≡ false)
      (last : o.sequence ≡ s.next_sequence) (not_superseded : o.status ≢ Status.superseded) where
    added_bounded :
        (id : Text) (p : Operation)
        → lookup id (record_operation o s).operations ≡ some p
        → (0 < p.sequence) × (p.sequence < u64 (s.next_sequence + 1))
    added_bounded id p h = rw wrap_free (elim (added_cases o s absent id p h) [
      | inl (_, e) ↦ rw (← e) (omega (arith, v.positive))
      | inr e ↦ omega (arith, v.bounded id p e)
    ])

    added_used :
        (id : Text) (p : Operation)
        → lookup id (record_operation o s).operations ≡ some p
        → (present (lookup id (record_operation o s).used_operation_ids) ≡ true)
          × (present (lookup p.retry_id (record_operation o s).used_retry_ids) ≡ true)
    unfolding record_operation
    added_used id p h = elim (added_cases o s absent id p h) [
      | inl (e, e') ↦ simp lookup-insert (ground (arith, e, e'))
      | inr e ↦ simp lookup-insert (ground (arith, v.used id p e))
    ]

    added_replaced :
        (id : Text) (p : Operation)
        → lookup id (record_operation o s).operations ≡ some p
        → p.status ≡ Status.superseded
        → (r : Operation) × (lookup p.replacement_operation_id (record_operation o s).operations
            ≡ some r)
          × (p.sequence < r.sequence)
          × (r.dataset_id ≡ p.dataset_id)
          × (r.branch ≡ p.branch)
    added_replaced id p h e = elim (added_cases o s absent id p h) [
      | inl (_, same) ↦ absurd (not_superseded (ap (λ x. x.status) same ∙ e))
      | inr found ↦
          let (r, there, later, dataset, branch) = v.replaced id p found e in
          (r, added_old o s absent p.replacement_operation_id r there, later, dataset, branch)
    ]

    added-Inv : Inv (record_operation o s)
    unfolding record_operation SameReplacement
    added-Inv = record {
      distinct = Distinct-insert o.operation_id o s.operations v.distinct;
      positive = rw wrap_free (omega arith);
      keyed = λ id p h. elim (added_cases o s absent id p h) [
        | inl (e, e') ↦ rw (← e') e
        | inr e ↦ v.keyed id p e
      ];
      bounded = added_bounded;
      used = added_used;
      sequences_differ =
          added_unique o s absent (λ p q. p.sequence ≡ q.sequence) v.sequences_differ
            (λ j q h e. omega (arith, v.bounded j q h)) (λ j q h e. omega (arith, v.bounded j q h));
      retries_differ =
          added_unique o s absent (λ p q. p.retry_id ≡ q.retry_id) v.retries_differ
            (λ j q h e. ground (arith, v.used j q h)) (λ j q h e. ground (arith, v.used j q h));
      replaced = added_replaced;
      replacements_differ = λ i j p q h k e e' same.
          added_unique o s absent SameReplacement
            (λ i j p q h k d. v.replacements_differ i j p q h k d.0 d.1 d.2)
            (λ j q h d. not_superseded d.0) (λ j q h d. not_superseded d.1) i j p q h k
            (e, e', same);
    }

pub Added-Inv : {o : Operation} {s t : State} → Added o s t → Inv s → HasRoom s → Inv t
Added-Inv {o} {s} a v room =
    rw a.state (added-Inv o s v room a.absent a.unused_retry a.last a.not_superseded)

module _ (o : Operation) (s : State) (absent : lookup o.operation_id s.operations ≡ none) where
  added_keeps :
      (j k : Text) (m : Map Bool)
      → present (lookup j m) ≡ true
      → present (lookup j (insert k true m)) ≡ true
  added_keeps j k m h = rw lookup-insert (ground arith)

  added-Progress :
      present (lookup o.operation_id s.used_operation_ids) ≡ false
      → present (lookup o.retry_id s.used_retry_ids) ≡ false
      → Progress s (record_operation o s)
  added-Progress unused_id unused_retry = record {
    evolves = λ j p q h k.
        same-Evolves (lookup j (record_operation o s).operations) p q (added_old o s absent j p h)
          k;
    keeps_ids =
        λ j h. unfold record_operation in added_keeps j o.operation_id s.used_operation_ids h;
    keeps_retries = λ j h. unfold record_operation in added_keeps j o.retry_id s.used_retry_ids h;
    fresh = λ j p h k. elim (added_cases o s absent j p k) [
      | inl (e, e') ↦ (rw (← e) unused_id, rw (← e') unused_retry)
      | inr e ↦ absurd (ground (arith, e))
    ];
  }

pub Added-Progress : {o : Operation} {s t : State} → Added o s t → Progress s t
Added-Progress {o} {s} a = rw a.state (added-Progress o s a.absent a.unused_id a.unused_retry)

-- What a successful append has done.
abbrev pub Appended : ℕ → Intent → Status → State → Operation → State → Type 0
Appended now intent initial s o t =
    ((t ≡ s) × (lookup intent.operation_id s.operations ≡ some o) × (o.intent ≡ intent))
    ⊎ (Added o s t × (o ≡ new_operation now intent initial s))

new-Added :
    (now : ℕ) (intent : Intent) (initial : Status) (s : State) (o : Operation) (t : State)
    → initial ≢ Status.superseded
    → lookup intent.operation_id s.operations ≡ none
    → append_new now intent initial s ≡ ok (o, t)
    → Added o s t × (o ≡ new_operation now intent initial s)
unfolding append_new new_operation record_operation
new-Added now intent initial s o t n absent h = (
  record {
    absent = ground arith;
    unused_id = ground arith;
    unused_retry = ground arith;
    last = ground arith;
    not_superseded = ground arith;
    state = ground arith;
  },
  ground arith,
)

pub append-Appended :
    (now : ℕ) (intent : Intent) (initial : Status) (s : State) (o : Operation) (t : State)
    → initial ≢ Status.superseded
    → append_locked now intent initial s ≡ ok (o, t)
    → Appended now intent initial s o t
unfolding append_locked
append-Appended now intent initial s o t n h =
    elim (Option-cases (lookup intent.operation_id s.operations)) [
      | inl e ↦ inr (new-Added now intent initial s o t n e (rw (e, append_locked) at h))
      | inr (p, e) ↦ inl (ground (arith, e), ground (arith, e), ground (arith, e))
    ]

pub Appended-Inv :
    (now : ℕ) {intent : Intent} (initial : Status) {s : State} {o : Operation} {t : State}
    → Appended now intent initial s o t
    → Inv s
    → HasRoom s
    → Inv t
Appended-Inv now initial (inl (same, _, _)) v room = rw same v
Appended-Inv now initial (inr (a, _)) v room = Added-Inv a v room

pub Appended-Progress :
    (now : ℕ) {intent : Intent} (initial : Status) {s : State} {o : Operation} {t : State}
    → Appended now intent initial s o t
    → Progress s t
Appended-Progress now initial {s = s} (inl (same, _, _)) = rw same (Progress-refl s)
Appended-Progress now initial (inr (a, _)) = Added-Progress a

pub Added-here :
    {o : Operation} {s t : State} → Added o s t → lookup o.operation_id t.operations ≡ some o
Added-here {o} {s} a =
    rw a.state (unfold record_operation in lookup-insert_self o.operation_id o s.operations)

pub Added-old :
    {o : Operation} {s t : State}
    → Added o s t
    → (j : Text) (p : Operation) → lookup j s.operations ≡ some p
    → lookup j t.operations ≡ some p
Added-old {o} {s} a j p h = rw a.state (added_old o s a.absent j p h)

pub Added-cases :
    {o : Operation} {s t : State}
    → Added o s t
    → (j : Text) (p : Operation) → lookup j t.operations ≡ some p
    → ((o.operation_id ≡ j) × (o ≡ p)) ⊎ (lookup j s.operations ≡ some p)
Added-cases {o} {s} a j p h = added_cases o s a.absent j p (rw a.state at h)
