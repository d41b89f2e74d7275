-- ===== src/Journal/Store/Batches.antt =====
-- The batch operations: FreezeBatchForUpload, MarkBatchConflicted, CompleteBatch.
use malt.Base.{
  ℕ, Bool, not, ◌&&◌, List, [], ◌∷◌, Text, text_eq, ◌==◌, ltb, ok, ◌>>=◌, ◌>>◌, refuse_if, or_fail,
  if◌then◌else◌, Map, lookup, insert, sort,
}
use malt.Journal.Types.{
  Status, Operation, State, Outcome, status_eq, not_found, identity_reuse, invalid_status,
}

-- The records of a batch, in its order; each must pass the check.
unfoldable pub select_batch :
    (Operation → Outcome (Unit {0})) → Map Operation → List Text → Outcome (List Operation)
select_batch check operations [] = ok []
select_batch check operations (id ∷ ids) = do
  o ← or_fail (lookup id operations) not_found
  check o
  selected ← select_batch check operations ids
  ok (o ∷ selected)

-- One record of the second loop: a record that has the status stays as it is.
unfoldable pub settle : Status → (Operation → Operation) → Operation → Operation
settle target change o = if o.status == target then o else change o

unfoldable pub store_settled :
    Status → (Operation → Operation) → List Operation → Map Operation → Map Operation
store_settled target change [] operations = operations
store_settled target change (o ∷ os) operations =
    store_settled target change os
      (if o.status == target then operations else insert o.operation_id (change o) operations)

unfoldable pub settle_all : Status → (Operation → Operation) → List Operation → List Operation
unfolding settle
settle_all target change [] = []
settle_all target change (o ∷ os) = settle target change o ∷ settle_all target change os

abbrev pub by_sequence : Operation → Operation → Bool
by_sequence o p = ltb o.sequence p.sequence

-- Both loops of a batch operation, and the sorted result.
unfoldable pub run_batch :
    (Operation → Outcome (Unit {0}))
    → Status
    → (Operation → Operation)
    → List Text
    → State
    → Outcome (List Operation × State)
unfolding select_batch store_settled settle_all
run_batch check target change ids s = do
  selected ← select_batch check s.operations ids
  ok (
    sort by_sequence (settle_all target change selected),
    record s { operations = store_settled target change selected s.operations },
  )

unfoldable pub check_freezable : Operation → Outcome (Unit {0})
check_freezable o =
    refuse_if
      (not (o.status == Status.local_dirty)
        && (not (o.status == Status.offline_only) && not (o.status == Status.pending_upload)))
      (invalid_status o.status Status.pending_upload)

unfoldable pub freeze : ℕ → Operation → Operation
freeze now o = record o { status = Status.pending_upload; updated_at = now }

unfoldable pub freeze_batch_locked : ℕ → List Text → State → Outcome (List Operation × State)
unfolding run_batch check_freezable freeze
freeze_batch_locked now = run_batch check_freezable Status.pending_upload (freeze now)

unfoldable pub check_conflictable : Text → Operation → Outcome (Unit {0})
check_conflictable conflict_id o =
    if o.status == Status.conflicted
    then refuse_if (not (o.conflict_id == conflict_id)) identity_reuse
    else refuse_if (not (o.status == Status.pending_upload))
        (invalid_status o.status Status.conflicted)

unfoldable pub mark_conflict : ℕ → Text → Operation → Operation
mark_conflict now conflict_id o = record o {
  status = Status.conflicted;
  conflict_id = conflict_id;
  updated_at = now;
}

unfoldable pub conflict_batch_locked :
    ℕ → Text → List Text → State → Outcome (List Operation × State)
unfolding run_batch check_conflictable mark_conflict
conflict_batch_locked now conflict_id =
    run_batch (check_conflictable conflict_id) Status.conflicted (mark_conflict now conflict_id)

unfoldable pub check_completable : Text → Operation → Outcome (Unit {0})
check_completable root o =
    if o.status == Status.completed
    then refuse_if (not (o.result_root == root)) identity_reuse
    else refuse_if (not (o.status == Status.pending_upload))
        (invalid_status o.status Status.completed)

unfoldable pub finish : ℕ → Text → Operation → Operation
finish now root o = record o { status = Status.completed; result_root = root; updated_at = now }

unfoldable pub complete_batch_locked :
    ℕ → Text → List Text → State → Outcome (List Operation × State)
unfolding run_batch check_completable finish
complete_batch_locked now root =
    run_batch (check_completable root) Status.completed (finish now root)
