-- ===== src/Journal/History/Steps.antt =====
-- One operation on a loaded journal, with its checked arguments, as a relation between states.
use malt.Base.{ℕ, ◌≡◌, ◌≢◌, some, [], Text, List, ok, arith}
use malt.Base.Cids.{CidCodec}
use malt.Journal.Types.{Status, Intent, Operation, State, status_eq}
use malt.Journal.Normalize.{normalize_intent}
use malt.Journal.Store.Locked.{append_locked, transition_locked, resolve_locked}
use malt.Journal.Store.Batches.{freeze_batch_locked, conflict_batch_locked, complete_batch_locked}
use malt.Journal.Store.Prune.{prune_locked}
use malt.Journal.Store.Methods.{check_initial, check_conflict_id}
use malt.Journal.Invariant.{Inv}
use malt.Journal.Invariant.Appends.{HasRoom, append-Appended, Appended-Inv, Appended-Progress}
use malt.Journal.Invariant.Transitions.{transition-Inv, transition-Progress}
use malt.Journal.Invariant.Batches.{batch-Inv, batch-Progress}
use malt.Journal.Invariant.Settling.{freeze-IsSettling, conflict-IsSettling, completion-IsSettling}
use malt.Journal.Invariant.Resolve.{resolve-Resolved, Resolved-Inv, Resolved-Progress}
use malt.Journal.Invariant.Progress.{Progress}
use malt.Journal.Pruning.Removal.{prune-Inv, prune-Progress}

module _ ⦃cids : CidCodec⦄ where
  pub data Step (now : ℕ) (s t : State) : Type 0 where
    append :
        (raw intent : Intent) (initial : Status) (o : Operation)
        → normalize_intent raw ≡ ok intent
        → check_initial initial ≡ ok tt
        → append_locked now intent initial s ≡ ok (o, t)
        → Step now s t
    freeze :
        (id : Text) (o : Operation)
        → transition_locked now id Status.pending_upload [] [] s ≡ ok (o, t)
        → Step now s t
    go_offline :
        (id : Text) (o : Operation)
        → transition_locked now id Status.offline_only [] [] s ≡ ok (o, t)
        → Step now s t
    conflict :
        (id raw c : Text) (o : Operation)
        → check_conflict_id raw ≡ ok c
        → transition_locked now id Status.conflicted c [] s ≡ ok (o, t)
        → Step now s t
    complete :
        (id raw root : Text) (o : Operation)
        → cids.parse raw ≡ some root
        → transition_locked now id Status.completed [] root s ≡ ok (o, t)
        → Step now s t
    freeze_batch :
        (ids : List Text) (os : List Operation)
        → freeze_batch_locked now ids s ≡ ok (os, t)
        → Step now s t
    conflict_batch :
        (ids : List Text) (raw c : Text) (os : List Operation)
        → check_conflict_id raw ≡ ok c
        → conflict_batch_locked now c ids s ≡ ok (os, t)
        → Step now s t
    complete_batch :
        (ids : List Text) (raw root : Text) (os : List Operation)
        → cids.parse raw ≡ some root
        → complete_batch_locked now root ids s ≡ ok (os, t)
        → Step now s t
    resolve :
        (id : Text) (raw intent : Intent) (initial : Status) (o p : Operation)
        → normalize_intent raw ≡ ok intent
        → check_initial initial ≡ ok tt
        → resolve_locked now id intent initial s ≡ ok ((o, p), t)
        → Step now s t
    prune : t ≡ (prune_locked s).1 → Step now s t

  pub initial-ne-superseded :
      (initial : Status) → check_initial initial ≡ ok tt → initial ≢ Status.superseded
  unfolding check_initial
  initial-ne-superseded initial h = ground arith

  -- Every operation keeps a well-formed state well-formed, if the next sequence is below 2^64 -
  -- 1.
  pub Step-Inv : {now : ℕ} {s t : State} → Step now s t → Inv s → HasRoom s → Inv t
  unfolding freeze_batch_locked conflict_batch_locked complete_batch_locked
  Step-Inv {now} {s} {t} (append raw intent initial o _ i h) v room =
      Appended-Inv now initial
        (append-Appended now intent initial s o t (initial-ne-superseded initial i) h) v room
  Step-Inv {now} {s} {t} (freeze id o h) v room = transition-Inv now id _ _ _ s o t h v
  Step-Inv {now} {s} {t} (go_offline id o h) v room = transition-Inv now id _ _ _ s o t h v
  Step-Inv {now} {s} {t} (conflict id _ c o _ h) v room = transition-Inv now id _ _ _ s o t h v
  Step-Inv {now} {s} {t} (complete id _ root o _ h) v room = transition-Inv now id _ _ _ s o t h v
  Step-Inv {now} {s} {t} (freeze_batch ids os h) v room =
      batch-Inv _ _ _ (freeze-IsSettling now) ids s v os t h
  Step-Inv {now} {s} {t} (conflict_batch ids _ c os _ h) v room =
      batch-Inv _ _ _ (conflict-IsSettling now c) ids s v os t h
  Step-Inv {now} {s} {t} (complete_batch ids _ root os _ h) v room =
      batch-Inv _ _ _ (completion-IsSettling now root) ids s v os t h
  Step-Inv {now} {s} {t} (resolve id _ intent initial o p _ i h) v room =
      Resolved-Inv now id intent initial s o p t
        (resolve-Resolved now id intent initial s o p t (initial-ne-superseded initial i) h) v room
  Step-Inv {now} {s} {t} (prune e) v room = rw e (prune-Inv s v)

  -- Every operation on a well-formed state moves each record that stays by at most one edge of
  -- its life cycle, loses no tombstone, and adds a record only under identities that were never
  -- used.
  pub Step-Progress : {now : ℕ} {s t : State} → Step now s t → Inv s → Progress s t
  unfolding freeze_batch_locked conflict_batch_locked complete_batch_locked
  Step-Progress {now} {s} {t} (append raw intent initial o _ i h) v =
      Appended-Progress now initial
        (append-Appended now intent initial s o t (initial-ne-superseded initial i) h)
  Step-Progress {now} {s} {t} (freeze id o h) v = transition-Progress now id _ _ _ s o t h
  Step-Progress {now} {s} {t} (go_offline id o h) v = transition-Progress now id _ _ _ s o t h
  Step-Progress {now} {s} {t} (conflict id _ c o _ h) v = transition-Progress now id _ _ _ s o t h
  Step-Progress {now} {s} {t} (complete id _ root o _ h) v =
      transition-Progress now id _ _ _ s o t h
  Step-Progress {now} {s} {t} (freeze_batch ids os h) v =
      batch-Progress _ _ _ (freeze-IsSettling now) ids s v os t h
  Step-Progress {now} {s} {t} (conflict_batch ids _ c os _ h) v =
      batch-Progress _ _ _ (conflict-IsSettling now c) ids s v os t h
  Step-Progress {now} {s} {t} (complete_batch ids _ root os _ h) v =
      batch-Progress _ _ _ (completion-IsSettling now root) ids s v os t h
  Step-Progress {now} {s} {t} (resolve id _ intent initial o p _ i h) v =
      Resolved-Progress now id intent initial s o p t
        (resolve-Resolved now id intent initial s o p t (initial-ne-superseded initial i) h)
  Step-Progress {now} {s} {t} (prune e) v = rw e (prune-Progress s v)
