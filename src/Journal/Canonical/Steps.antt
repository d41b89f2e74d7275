-- ===== src/Journal/Canonical/Steps.antt =====
-- Every step of a loadable journal gives a loadable journal, if the clock has not gone back.
use mathlib.Core.Path.{subst}
use malt.Base.{
  inl, inr, ℕ, ◌≤◌, ◌<◌, ◌≡◌, ◌≢◌, ap, refl, true, Bool, some, [], ◌∷◌, Text, text_eq, nat_eq, ok,
  trim_space, valid_utf8, arith, Map, insert, lookup,
}
use malt.Base.Cids.{CidCodec}
use malt.Journal.Types.{Status, Intent, Operation, State, status_eq}
use malt.Journal.Normalize.{trim_intent, check_identities, normalize_intent}
use malt.Journal.Load.{load_tombstones}
use malt.Journal.Store.Locked.{
  change_status, record_operation, put_operation, transition_locked, allowed_status_transition,
}
use malt.Journal.Store.Batches.{freeze_batch_locked, conflict_batch_locked, complete_batch_locked}
use malt.Journal.Store.Prune.{prune_locked}
use malt.Journal.Store.Methods.{check_initial}
use malt.Journal.Invariant.Appends.{HasRoom, Added, Added-cases, Appended, append-Appended}
use malt.Journal.Invariant.Transitions.{transition-keeps, transition-rest, put-cases}
use malt.Journal.Invariant.Batches.{batch-keeps, batch-Rewrites}
use malt.Journal.Invariant.Settling.{freeze-IsSettling, conflict-IsSettling, completion-IsSettling}
use malt.Journal.Invariant.Resolve.{Resolved, resolve-Resolved}
use malt.Journal.Pruning.Removal.{prune-left}
use malt.Journal.Canonical.Intents.{IsCanonical, normalize-IsCanonical}
use malt.Journal.Canonical.Operations.{IsSound}
use malt.Journal.Canonical.Changes.{
  checked-IsConflictId, new-IsSound, plain_change-IsSound, conflict_change-IsSound,
  completion_change-IsSound, freeze-IsSound, mark_conflict-IsSound, finish-IsSound,
  supersede-IsSound,
}
use malt.Journal.Canonical.Saved.{IsLoadable}
use malt.Journal.History.Steps.{Step, Step-Inv, initial-ne-superseded}

-- The clock is past the creation of every record.
abbrev pub IsPast : ℕ → State → Type 0
IsPast now s =
    (0 < now) × ((id : Text) (o : Operation) → lookup id s.operations ≡ some o → o.created_at ≤ now)

-- A text that a tombstone may have for its key.
abbrev IsTombstone : Text → Type 0
IsTombstone k = (trim_space k ≡ k) × (k ≢ []) × (valid_utf8 k ≡ true)

insert-tombstone :
    (k : Text) (m : Map Bool)
    → IsTombstone k
    → load_tombstones m ≡ ok tt
    → load_tombstones (insert k true m) ≡ ok tt
unfolding load_tombstones insert
insert-tombstone k [] h l = ground arith
insert-tombstone k ((j, b) ∷ m) h l = ground (arith, insert-tombstone k m h)

module _ ⦃cids : CidCodec⦄ where
  canonical-tombstones :
      (i : Intent) → IsCanonical i → IsTombstone i.operation_id × IsTombstone i.retry_id
  unfolding trim_intent check_identities
  canonical-tombstones i c =
      let t = c.trimmed in
      let checks = c.identities in
      (
        (ap (λ x. x.operation_id) t, ground (arith, checks), ground (arith, checks)),
        (ap (λ x. x.retry_id) t, ground (arith, checks), ground (arith, checks)),
      )

  -- The tombstones after a new record.
  Added-tombstones :
      {o : Operation} {s t : State}
      → Added o s t
      → IsSound o
      → IsLoadable s
      → (load_tombstones t.used_operation_ids ≡ ok tt) × (load_tombstones t.used_retry_ids ≡ ok tt)
  unfolding record_operation
  Added-tombstones {o} {s} a c v =
      let (id, retry) = canonical-tombstones o.intent c.intent in
      rw a.state (
        insert-tombstone o.operation_id s.used_operation_ids id v.ids,
        insert-tombstone o.retry_id s.used_retry_ids retry v.retries,
      )

  module _ (now : ℕ) (s t : State) (v : IsLoadable s) (past : IsPast now s) (room : HasRoom s)
      (step : Step now s t) where
    -- A step that leaves the tombstones and keeps every record sound.
    kept-IsLoadable :
        ((j : Text) (p : Operation) → lookup j t.operations ≡ some p → IsSound p)
        → t.used_operation_ids ≡ s.used_operation_ids
        → t.used_retry_ids ≡ s.used_retry_ids
        → IsLoadable t
    kept-IsLoadable sound ids retries = record {
      inv = Step-Inv step v.inv room;
      sound = sound;
      ids = rw ids v.ids;
      retries = rw retries v.retries;
    }

    moved-IsLoadable :
        (id : Text) (next : Status) (c root : Text) (done : Operation)
        → ((o : Operation)
            → lookup id s.operations ≡ some o
            → allowed_status_transition o.status next ≡ true
            → IsSound (change_status now next c root o))
        → transition_locked now id next c root s ≡ ok (done, t)
        → IsLoadable t
    moved-IsLoadable id next c root done changed h =
        let (ids, retries, _) = transition-rest now id next c root s done t h in
        kept-IsLoadable (transition-keeps now id next c root s done t IsSound changed v.sound h) ids
          retries

    Appended-IsLoadable :
        (raw intent : Intent) (initial : Status) (o : Operation)
        → normalize_intent raw ≡ ok intent
        → check_initial initial ≡ ok tt
        → Appended now intent initial s o t
        → IsLoadable t
    Appended-IsLoadable raw intent initial o n i (inl (same, _, _)) = rw same v
    Appended-IsLoadable raw intent initial o n i (inr (a, made)) =
        let fresh : IsSound o = rw made (
          new-IsSound now intent initial s (normalize-IsCanonical raw intent n) i past.0
            v.inv.positive) in
        let (ids, retries) = Added-tombstones a fresh v in
        record {
          inv = Step-Inv step v.inv room;
          sound = λ j p h. elim (Added-cases a j p h) [
            | inl (_, same) ↦ subst IsSound same fresh
            | inr old ↦ v.sound j p old
          ];
          ids = ids;
          retries = retries;
        }

    resolved-IsLoadable :
        (raw intent : Intent) (id : Text) (initial : Status) (original next : Operation)
        → normalize_intent raw ≡ ok intent
        → check_initial initial ≡ ok tt
        → Resolved now id intent initial s original next t
        → IsLoadable t
    resolved-IsLoadable raw intent id initial original next n i (inl before) =
        rw (before.unchanged) v
    resolved-IsLoadable raw intent id initial original next n i
          (inr (current, a, found, active, _, _, added, made, gone, state)) =
        let fresh : IsSound next = rw made (
          new-IsSound now intent initial s (normalize-IsCanonical raw intent n) i past.0
            v.inv.positive) in
        let (ids, retries) = Added-tombstones added fresh v in
        let (trimmed, nonempty, valid) = (canonical-tombstones next.intent fresh.intent).0 in
        let final : IsSound original = rw gone (
          supersede-IsSound now current (v.sound id current found) (past.1 id current found)
            next.operation_id active trimmed valid nonempty) in
        record {
          inv = Step-Inv step v.inv room;
          sound = λ j p h.
              elim (put-cases id j original p a
                (subst (λ x. lookup j x.operations ≡ some p) state h)) [
                  | inl (_, same) ↦ subst IsSound same final
                  | inr (_, old) ↦ elim (Added-cases added j p old) [
                    | inl (_, same) ↦ subst IsSound same fresh
                    | inr older ↦ v.sound j p older
                  ]
                ];
          ids = rw state (unfold put_operation in ids);
          retries = rw state (unfold put_operation in retries);
        }

  pub Step-IsLoadable :
      (now : ℕ) (s t : State)
      → Step now s t
      → IsLoadable s
      → IsPast now s
      → HasRoom s
      → IsLoadable t
  unfolding freeze_batch_locked conflict_batch_locked complete_batch_locked
  Step-IsLoadable now s t (Step.append raw intent initial o n i h) v past room =
      Appended-IsLoadable now s t v past room (Step.append raw intent initial o n i h) raw intent
        initial o n i (append-Appended now intent initial s o t (initial-ne-superseded initial i) h)
  Step-IsLoadable now s t (Step.freeze id o h) v past room =
      moved-IsLoadable now s t v past room (Step.freeze id o h) id Status.pending_upload [] [] o
        (λ p found a.
          plain_change-IsSound now p (v.sound id p found) (past.1 id p found) Status.pending_upload
            a (inr (inr refl)))
        h
  Step-IsLoadable now s t (Step.go_offline id o h) v past room =
      moved-IsLoadable now s t v past room (Step.go_offline id o h) id Status.offline_only [] [] o
        (λ p found a.
          plain_change-IsSound now p (v.sound id p found) (past.1 id p found) Status.offline_only a
            (inr (inl refl)))
        h
  Step-IsLoadable now s t (Step.conflict id raw c o q h) v past room =
      moved-IsLoadable now s t v past room (Step.conflict id raw c o q h) id Status.conflicted c []
        o
        (λ p found a.
          conflict_change-IsSound now p (v.sound id p found) (past.1 id p found) c a
            (checked-IsConflictId raw c q))
        h
  Step-IsLoadable now s t (Step.complete id raw root o q h) v past room =
      moved-IsLoadable now s t v past room (Step.complete id raw root o q h) id Status.completed []
        root o
        (λ p found a.
          completion_change-IsSound now p (v.sound id p found) (past.1 id p found) root a
            (cids.parse_again raw root q))
        h
  Step-IsLoadable now s t (Step.freeze_batch ids os h) v past room =
      let r = batch-Rewrites _ _ _ (freeze-IsSettling now) ids s v.inv os t h in
      kept-IsLoadable now s t v past room (Step.freeze_batch ids os h)
        (batch-keeps _ _ _ (freeze-IsSettling now) ids s v.inv os t IsSound
          (λ j o found c sound. freeze-IsSound now o sound (past.1 j o found) c) v.sound h)
        r.ids r.retries
  Step-IsLoadable now s t (Step.conflict_batch ids raw c os q h) v past room =
      let r = batch-Rewrites _ _ _ (conflict-IsSettling now c) ids s v.inv os t h in
      kept-IsLoadable now s t v past room (Step.conflict_batch ids raw c os q h)
        (batch-keeps _ _ _ (conflict-IsSettling now c) ids s v.inv os t IsSound
          (λ j o found k sound.
            mark_conflict-IsSound now o sound (past.1 j o found) c (checked-IsConflictId raw c q) k)
          v.sound h)
        r.ids r.retries
  Step-IsLoadable now s t (Step.complete_batch ids raw root os q h) v past room =
      let r = batch-Rewrites _ _ _ (completion-IsSettling now root) ids s v.inv os t h in
      kept-IsLoadable now s t v past room (Step.complete_batch ids raw root os q h)
        (batch-keeps _ _ _ (completion-IsSettling now root) ids s v.inv os t IsSound
          (λ j o found k sound.
            finish-IsSound now o sound (past.1 j o found) root (cids.parse_again raw root q) k)
          v.sound h)
        r.ids r.retries
  Step-IsLoadable now s t (Step.resolve id raw intent initial o p n i h) v past room =
      resolved-IsLoadable now s t v past room (Step.resolve id raw intent initial o p n i h) raw
        intent id initial o p n i
        (resolve-Resolved now id intent initial s o p t (initial-ne-superseded initial i) h)
  Step-IsLoadable now s t (Step.prune e) v past room =
      kept-IsLoadable now s t v past room (Step.prune e)
        (λ j p h.
          v.sound j p (prune-left s v.inv j p (subst (λ x. lookup j x.operations ≡ some p) e h)).0)
        (unfold prune_locked in ap (λ x. x.used_operation_ids) e)
        (unfold prune_locked in ap (λ x. x.used_retry_ids) e)
