-- ===== src/Journal/Canonical/Changes.antt =====
-- Every way in which the journal makes or changes a record leaves it sound.
use malt.Base.{
  ◌⊎◌, inl, inr, ℕ, ◌≤◌, ◌<◌, ◌≡◌, ◌≢◌, ◌∙◌, refl, true, some, [], Text, text_eq, ◌==◌, ok,
  trim_space, valid_utf8, arith, Bool-cases,
}
use malt.Base.Cids.{CidCodec}
use malt.Base.Trim.{trim_space_idem}
use malt.Journal.Types.{Status, Intent, Operation, State, status_eq}
use malt.Journal.Store.Locked.{new_operation, change_status, supersede, allowed_status_transition}
use malt.Journal.Store.Batches.{
  settle, check_freezable, freeze, check_conflictable, mark_conflict, check_completable, finish,
}
use malt.Journal.Store.Methods.{check_initial, check_conflict_id}
use malt.Journal.Canonical.Intents.{IsCanonical}
use malt.Journal.Canonical.Operations.{Fields, IsSound}

-- The statuses whose records have nothing but their intent.
abbrev IsPlain : Status → Type 0
IsPlain st = (st ≡ Status.local_dirty) ⊎ (st ≡ Status.offline_only) ⊎ (st ≡ Status.pending_upload)

-- What check_conflict_id accepts.
pub record IsConflictId (c : Text) : Type 0 where
  pub trimmed : trim_space c ≡ c
  pub nonempty : c ≢ []
  pub valid : valid_utf8 c ≡ true

pub checked-IsConflictId : (raw c : Text) → check_conflict_id raw ≡ ok c → IsConflictId c
unfolding check_conflict_id
checked-IsConflictId raw c h = record {
  trimmed = ground (arith, trim_space_idem raw);
  nonempty = ground arith;
  valid = ground arith;
}

module _ ⦃cids : CidCodec⦄ where
  plain-Fields :
      (o : Operation)
      → IsPlain o.status
      → Fields o.status o.conflict_id o.replacement_operation_id o.result_root
      → (o.conflict_id ≡ []) × (o.replacement_operation_id ≡ []) × (o.result_root ≡ [])
  plain-Fields o p f = ground arith

  Fields-plain :
      (st : Status) (c r root : Text)
      → IsPlain st
      → c ≡ []
      → r ≡ []
      → root ≡ []
      → Fields st c r root
  Fields-plain st c r root p a b d = ground arith

  pub new-IsSound :
      (now : ℕ) (intent : Intent) (initial : Status) (s : State)
      → IsCanonical intent
      → check_initial initial ≡ ok tt
      → 0 < now
      → 0 < s.next_sequence
      → IsSound (new_operation now intent initial s)
  unfolding new_operation check_initial trim_space valid_utf8
  new-IsSound now intent initial s c i n q = record {
    intent = c;
    positive = q;
    created = n;
    ordered = omega arith;
    conflict_trimmed = refl;
    replacement_trimmed = refl;
    root_trimmed = refl;
    conflict_valid = refl;
    replacement_valid = refl;
    fields = Fields-plain initial [] [] [] (ground arith) refl refl refl;
  }

  -- One plain record given another status, with the fields of that status.
  module _ (now : ℕ) (o p : Operation) (v : IsSound o) (plain : IsPlain o.status)
      (intent : p.intent ≡ o.intent) (sequence : p.sequence ≡ o.sequence)
      (created : p.created_at ≡ o.created_at) (updated : p.updated_at ≡ now)
      (later : o.created_at ≤ now)
      (replacement : p.replacement_operation_id ≡ o.replacement_operation_id) where
    no_replacement : p.replacement_operation_id ≡ []
    no_replacement = replacement ∙ (plain-Fields o plain v.fields).1

    rebuilt :
        trim_space p.conflict_id ≡ p.conflict_id
        → valid_utf8 p.conflict_id ≡ true
        → trim_space p.result_root ≡ p.result_root
        → Fields p.status p.conflict_id [] p.result_root
        → IsSound p
    unfolding trim_space valid_utf8
    rebuilt ct cv rt f = record {
      intent = rw intent v.intent;
      positive = rw sequence v.positive;
      created = rw created v.created;
      ordered = omega (arith, created, updated);
      conflict_trimmed = ct;
      replacement_trimmed = rw no_replacement refl;
      root_trimmed = rt;
      conflict_valid = cv;
      replacement_valid = rw no_replacement refl;
      fields = rw no_replacement f;
    }

    plain-IsSound : IsPlain p.status → p.conflict_id ≡ [] → p.result_root ≡ [] → IsSound p
    unfolding trim_space valid_utf8
    plain-IsSound st c root =
        rebuilt (rw c refl) (rw c refl) (rw root refl)
          (Fields-plain p.status p.conflict_id [] p.result_root st c refl root)

    conflicted-IsSound :
        p.status ≡ Status.conflicted → IsConflictId p.conflict_id → p.result_root ≡ [] → IsSound p
    unfolding trim_space
    conflicted-IsSound st c root =
        rebuilt c.trimmed c.valid (rw root refl) (rw st (c.nonempty, refl, root))

    completed-IsSound :
        p.status ≡ Status.completed
        → p.conflict_id ≡ []
        → cids.parse p.result_root ≡ some p.result_root
        → IsSound p
    unfolding trim_space valid_utf8
    completed-IsSound st c root =
        rebuilt (rw c refl) (rw c refl) (cids.parse_trimmed p.result_root p.result_root root)
          (rw st (c, refl, root))

  allowed-IsPlain : (st next : Status) → allowed_status_transition st next ≡ true → IsPlain st
  unfolding allowed_status_transition
  allowed-IsPlain st next h = ground arith

  -- transition to a plain status, to a conflict and to completion
  module _ (now : ℕ) (o : Operation) (v : IsSound o) (later : o.created_at ≤ now) where
    pub plain_change-IsSound :
        (next : Status)
        → allowed_status_transition o.status next ≡ true
        → IsPlain next
        → IsSound (change_status now next [] [] o)
    unfolding change_status
    plain_change-IsSound next a p =
        plain-IsSound now o (change_status now next [] [] o) v (allowed-IsPlain o.status next a)
          refl refl refl refl later refl p refl refl

    pub conflict_change-IsSound :
        (c : Text)
        → allowed_status_transition o.status Status.conflicted ≡ true
        → IsConflictId c
        → IsSound (change_status now Status.conflicted c [] o)
    unfolding change_status
    conflict_change-IsSound c a p =
        conflicted-IsSound now o (change_status now Status.conflicted c [] o) v
          (allowed-IsPlain o.status Status.conflicted a) refl refl refl refl later refl refl p refl

    pub completion_change-IsSound :
        (root : Text)
        → allowed_status_transition o.status Status.completed ≡ true
        → cids.parse root ≡ some root
        → IsSound (change_status now Status.completed [] root o)
    unfolding change_status
    completion_change-IsSound root a p =
        completed-IsSound now o (change_status now Status.completed [] root o) v
          (allowed-IsPlain o.status Status.completed a) refl refl refl refl later refl refl refl p

    pub freeze-IsSound :
        check_freezable o ≡ ok tt → IsSound (settle Status.pending_upload (freeze now) o)
    unfolding check_freezable settle freeze
    freeze-IsSound h = elim (Bool-cases (o.status == Status.pending_upload)) [
      | inl e ↦ rw (e, settle) v
      | inr e ↦
          let plain : IsPlain o.status = ground (arith, e) in
          let f = plain-Fields o plain v.fields in
          rw (e, settle)
            (plain-IsSound now o (freeze now o) v plain refl refl refl refl later refl
              (inr (inr refl)) f.0 f.2)
    ]

    pub mark_conflict-IsSound :
        (c : Text)
        → IsConflictId c
        → check_conflictable c o ≡ ok tt
        → IsSound (settle Status.conflicted (mark_conflict now c) o)
    unfolding check_conflictable settle mark_conflict
    mark_conflict-IsSound c p h = elim (Bool-cases (o.status == Status.conflicted)) [
      | inl e ↦ rw (e, settle) v
      | inr e ↦
          let plain : IsPlain o.status = ground (arith, e) in
          let f = plain-Fields o plain v.fields in
          rw (e, settle)
            (conflicted-IsSound now o (mark_conflict now c o) v plain refl refl refl refl later refl
              refl p f.2)
    ]

    pub finish-IsSound :
        (root : Text)
        → cids.parse root ≡ some root
        → check_completable root o ≡ ok tt
        → IsSound (settle Status.completed (finish now root) o)
    unfolding check_completable settle finish
    finish-IsSound root p h = elim (Bool-cases (o.status == Status.completed)) [
      | inl e ↦ rw (e, settle) v
      | inr e ↦
          let plain : IsPlain o.status = ground (arith, e) in
          let f = plain-Fields o plain v.fields in
          rw (e, settle)
            (completed-IsSound now o (finish now root o) v plain refl refl refl refl later refl refl
              f.0 p)
    ]

    pub supersede-IsSound :
        (rid : Text)
        → o.status ≡ Status.conflicted
        → trim_space rid ≡ rid
        → valid_utf8 rid ≡ true
        → rid ≢ []
        → IsSound (supersede now rid o)
    unfolding supersede
    supersede-IsSound rid e t u n =
        let f : Fields Status.conflicted o.conflict_id o.replacement_operation_id o.result_root =
          rw e at v.fields in
        record {
          intent = v.intent;
          positive = v.positive;
          created = v.created;
          ordered = later;
          conflict_trimmed = v.conflict_trimmed;
          replacement_trimmed = t;
          root_trimmed = v.root_trimmed;
          conflict_valid = v.conflict_valid;
          replacement_valid = u;
          fields = (f.0, n, f.2);
        }
