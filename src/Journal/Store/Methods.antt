-- ===== src/Journal/Store/Methods.antt =====
-- The public methods: what they check first, then the operation on the loaded file.
use malt.Base.{
  ℕ, Bool, not, ◌&&◌, ◌||◌, Option, none, some, List, [], ◌∷◌, Text, text_eq, ◌==◌, ok, err, ◌>>=◌,
  ◌>>◌, refuse_if, or_fail, if◌then◌else◌, trim_space, valid_utf8, Map, lookup, sort,
}
use malt.Base.Cids.{CidCodec}
use malt.Base.Durable.{Io, Outcome as Commit, reads, writes, call}
use malt.Journal.Types.{
  Status, Intent, Operation, State, Document, Error, Outcome, problem, status_eq, not_found,
  identity_reuse, bad_initial_status, bad_conflict_id, missing_operation_id, bad_result_root,
  identity_not_utf8, io_failed,
}
use malt.Journal.Normalize.{normalize_intent, normalize_operation_ids}
use malt.Journal.Load.{empty_state, save, load}
use malt.Journal.Store.Locked.{append_locked, transition_locked, resolve_locked}
use malt.Journal.Store.Batches.{
  by_sequence, freeze_batch_locked, conflict_batch_locked, complete_batch_locked,
}
use malt.Journal.Store.Prune.{prune_locked}

abbrev pub Disk : Type 0
Disk = Option Document

unfoldable pub check_initial : Status → Outcome (Unit {0})
check_initial initial =
    refuse_if (not (initial == Status.local_dirty) && not (initial == Status.offline_only))
      (problem bad_initial_status)

unfoldable pub check_operation_id : Text → Outcome Text
check_operation_id raw = do
  let id = trim_space raw
  refuse_if (id == [] || not (valid_utf8 id)) (problem missing_operation_id)
  ok id

unfoldable pub check_conflict_id : Text → Outcome Text
check_conflict_id raw = do
  let id = trim_space raw
  refuse_if (id == [] || not (valid_utf8 id)) (problem bad_conflict_id)
  ok id

-- The records that pass, in the order of their sequence.
unfoldable pub listed : (Status → Bool) → Map Operation → List Operation
listed include [] = []
listed include ((id, o) ∷ rest) =
    let others = listed include rest in if include o.status then o ∷ others else others

abbrev pub is_replayable : Status → Bool
is_replayable s =
    s == Status.local_dirty || (s == Status.offline_only || s == Status.pending_upload)

abbrev pub is_unfinished : Status → Bool
is_unfinished s = not (s == Status.completed) && not (s == Status.superseded)

module _ ⦃cids : CidCodec⦄ where
  -- withState, around a method's own checks.
  unfoldable pub journal_call :
      {X A : Type 0} → Io → Outcome X → (X → State → Commit Error A State) → Disk → Outcome A × Disk
  unfolding call load save
  journal_call = call load save empty_state (problem io_failed)

  unfoldable pub check_append : Intent → Status → Outcome Intent
  unfolding check_initial
  check_append raw initial = do intent ← normalize_intent raw; check_initial initial; ok intent

  unfoldable pub append : Io → ℕ → Intent → Status → Disk → Outcome Operation × Disk
  unfolding journal_call check_append
  append io now raw initial =
      journal_call io (check_append raw initial)
        (λ intent s. writes (append_locked now intent initial s))

  unfoldable pub transition :
      Io → ℕ → Outcome Text → Status → Text → Text → Disk → Outcome Operation × Disk
  unfolding journal_call
  transition io now checked next conflict_id result_root =
      journal_call io checked
        (λ id s. writes (transition_locked now id next conflict_id result_root s))

  unfoldable pub freeze_for_upload : Io → ℕ → Text → Disk → Outcome Operation × Disk
  unfolding transition check_operation_id
  freeze_for_upload io now raw =
      transition io now (check_operation_id raw) Status.pending_upload [] []

  unfoldable pub mark_offline : Io → ℕ → Text → Disk → Outcome Operation × Disk
  unfolding transition check_operation_id
  mark_offline io now raw = transition io now (check_operation_id raw) Status.offline_only [] []

  unfoldable pub mark_conflicted : Io → ℕ → Text → Text → Disk → Outcome Operation × Disk
  unfolding transition check_operation_id check_conflict_id
  mark_conflicted io now raw raw_conflict =
      transition io now (do _ ← check_conflict_id raw_conflict; check_operation_id raw)
        Status.conflicted (trim_space raw_conflict) []

  unfoldable pub complete : Io → ℕ → Text → Text → Disk → Outcome Operation × Disk
  unfolding transition check_operation_id
  complete io now raw raw_root = elim (cids.parse (trim_space raw_root)) [
    | some root ↦ transition io now (check_operation_id raw) Status.completed [] root
    | none ↦ λ disk. (err (problem bad_result_root), disk)
  ]

  unfoldable pub freeze_batch_for_upload :
      Io → ℕ → List Text → Disk → Outcome (List Operation) × Disk
  unfolding journal_call normalize_operation_ids freeze_batch_locked
  freeze_batch_for_upload io now raw =
      journal_call io (normalize_operation_ids raw)
        (λ ids s. writes (freeze_batch_locked now ids s))

  abbrev pub check_conflict_batch : List Text → Text → Outcome (List Text × Text)
  check_conflict_batch raw raw_conflict = do
    ids ← normalize_operation_ids raw
    conflict_id ← check_conflict_id raw_conflict
    ok (ids, conflict_id)

  unfoldable pub mark_batch_conflicted :
      Io → ℕ → List Text → Text → Disk → Outcome (List Operation) × Disk
  unfolding journal_call normalize_operation_ids check_conflict_id conflict_batch_locked
  mark_batch_conflicted io now raw raw_conflict =
      journal_call io (check_conflict_batch raw raw_conflict)
        (λ checked s. writes (conflict_batch_locked now checked.1 checked.0 s))

  abbrev pub check_complete_batch : List Text → Text → Outcome (List Text × Text)
  check_complete_batch raw raw_root = do
    ids ← normalize_operation_ids raw
    root ← or_fail (cids.parse (trim_space raw_root)) (problem bad_result_root)
    ok (ids, root)

  unfoldable pub complete_batch : Io → ℕ → List Text → Text → Disk → Outcome (List Operation) × Disk
  unfolding journal_call normalize_operation_ids complete_batch_locked
  complete_batch io now raw raw_root =
      journal_call io (check_complete_batch raw raw_root)
        (λ checked s. writes (complete_batch_locked now checked.1 checked.0 s))

  abbrev pub check_resolve : Text → Intent → Status → Outcome (Text × Intent)
  check_resolve raw raw_replacement initial = do
    id ← check_operation_id raw
    replacement ← normalize_intent raw_replacement
    check_initial initial
    refuse_if (replacement.operation_id == id) identity_reuse
    ok (id, replacement)

  unfoldable pub resolve_conflict :
      Io → ℕ → Text → Intent → Status → Disk → Outcome (Operation × Operation) × Disk
  unfolding journal_call check_operation_id check_initial resolve_locked
  resolve_conflict io now raw raw_replacement initial =
      journal_call io (check_resolve raw raw_replacement initial)
        (λ checked s. writes (resolve_locked now checked.0 checked.1 initial s))

  -- Get, which looks an empty identity up too
  unfoldable pub get : Io → Text → Disk → Outcome Operation × Disk
  unfolding journal_call
  get io raw =
      journal_call io
        (do
          let id = trim_space raw
          refuse_if (not (valid_utf8 id)) (problem identity_not_utf8)
          ok id)
        (λ id s. reads (or_fail (lookup id s.operations) not_found))

  unfoldable pub list : Io → (Status → Bool) → Disk → Outcome (List Operation) × Disk
  unfolding journal_call listed
  list io include =
      journal_call io (ok tt) (λ _ s. reads (ok (sort by_sequence (listed include s.operations))))

  unfoldable pub replayable : Io → Disk → Outcome (List Operation) × Disk
  unfolding list
  replayable io = list io is_replayable

  unfoldable pub unfinished : Io → Disk → Outcome (List Operation) × Disk
  unfolding list
  unfinished io = list io is_unfinished

  unfoldable pub prune_completed : Io → Disk → Outcome ℕ × Disk
  unfolding journal_call prune_locked
  prune_completed io = journal_call io (ok tt) (λ _ s. writes (ok (prune_locked s)))
