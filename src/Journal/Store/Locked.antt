-- ===== src/Journal/Store/Locked.antt =====
-- appendLocked, and the operations on one record: transition and ResolveConflict.
use malt.Base.{
  ℕ, ◌+◌, Bool, true, false, not, ◌&&◌, ◌||◌, none, some, [], Text, text_eq, ◌==◌, ok, err, ◌>>=◌,
  ◌>>◌, refuse_if, or_fail, if◌then◌else◌, lookup, insert, present, is_some,
}
use malt.Journal.Types.{
  Status, Intent, Operation, State, Error, Outcome, problem, status_eq, intent_eq, not_found,
  identity_reuse, request_frozen, invalid_status, replacement_elsewhere, u64,
}

unfoldable pub new_operation : ℕ → Intent → Status → State → Operation
new_operation now intent initial s = record {
  intent = intent;
  sequence = s.next_sequence;
  status = initial;
  conflict_id = [];
  result_root = [];
  replacement_operation_id = [];
  created_at = now;
  updated_at = now;
}

-- The state with one more operation and its two tombstones.
unfoldable pub record_operation : Operation → State → State
record_operation o s = record s {
  next_sequence = u64 (s.next_sequence + 1);
  operations = insert o.operation_id o s.operations;
  used_operation_ids = insert o.operation_id true s.used_operation_ids;
  used_retry_ids = insert o.retry_id true s.used_retry_ids;
}

unfoldable pub append_new : ℕ → Intent → Status → State → Outcome (Operation × State)
unfolding new_operation record_operation
append_new now intent initial s = do
  refuse_if
      (present (lookup intent.operation_id s.used_operation_ids)
        || present (lookup intent.retry_id s.used_retry_ids))
      identity_reuse
  let o = new_operation now intent initial s
  ok (o, record_operation o s)

unfoldable pub append_locked : ℕ → Intent → Status → State → Outcome (Operation × State)
unfolding append_new
append_locked now intent initial s = elim (lookup intent.operation_id s.operations) [
  | some existing ↦ if existing.intent == intent then ok (existing, s) else err identity_reuse
  | none ↦ append_new now intent initial s
]

unfoldable pub allowed_status_transition : Status → Status → Bool
allowed_status_transition Status.local_dirty next =
    next == Status.offline_only || (next == Status.pending_upload || next == Status.conflicted)
allowed_status_transition Status.offline_only next =
    next == Status.local_dirty || (next == Status.pending_upload || next == Status.conflicted)
allowed_status_transition Status.pending_upload next =
    next == Status.conflicted || next == Status.completed
allowed_status_transition current next = false

-- The refusal of a transition: a frozen request has an error of its own.
unfoldable pub transition_refusal : Status → Status → Error
transition_refusal current next =
    if current == Status.pending_upload && next == Status.offline_only
    then request_frozen
    else invalid_status current next

unfoldable pub change_status : ℕ → Status → Text → Text → Operation → Operation
change_status now next conflict_id result_root o = record o {
  status = next;
  conflict_id = conflict_id;
  result_root = result_root;
  updated_at = now;
}

unfoldable pub put_operation : Text → Operation → State → State
put_operation id o s = record s { operations = insert id o s.operations }

-- The callback of `transition` on the record that was found.
unfoldable pub transition_found :
    ℕ → Text → Status → Text → Text → State → Operation → Outcome (Operation × State)
unfolding allowed_status_transition transition_refusal change_status put_operation
transition_found now id next conflict_id result_root s o =
    let changed = change_status now next conflict_id result_root o in
    if o.status == next
    then if not (o.conflict_id == conflict_id) || not (o.result_root == result_root)
      then err identity_reuse
      else ok (o, s)
    else if not (allowed_status_transition o.status next)
    then err (transition_refusal o.status next)
    else ok (changed, put_operation id changed s)

unfoldable pub transition_locked :
    ℕ → Text → Status → Text → Text → State → Outcome (Operation × State)
unfolding transition_found
transition_locked now id next conflict_id result_root s = do
  o ← or_fail (lookup id s.operations) not_found
  transition_found now id next conflict_id result_root s o

unfoldable pub supersede : ℕ → Text → Operation → Operation
supersede now replacement o = record o {
  status = Status.superseded;
  replacement_operation_id = replacement;
  updated_at = now;
}

-- A conflict that was resolved before: the same replacement again is accepted.
unfoldable pub resolved_before :
    Intent → State → Operation → Outcome ((Operation × Operation) × State)
resolved_before replacement s current = do
  refuse_if (not (current.replacement_operation_id == replacement.operation_id)) identity_reuse
  existing ← or_fail (lookup replacement.operation_id s.operations) identity_reuse
  refuse_if (not (existing.intent == replacement)) identity_reuse
  ok ((current, existing), s)

-- `now` is both readings of the clock, that of the append and that of the old record.
unfoldable pub resolve_now :
    ℕ → Text → Intent → Status → State → Operation → Outcome ((Operation × Operation) × State)
unfolding append_locked supersede put_operation
resolve_now now id replacement initial s current = do
  refuse_if (not (current.status == Status.conflicted))
      (invalid_status current.status Status.superseded)
  refuse_if
      (not (replacement.dataset_id == current.dataset_id)
        || not (replacement.branch == current.branch))
      (problem replacement_elsewhere)
  refuse_if (is_some (lookup replacement.operation_id s.operations)) identity_reuse
  (next, appended) ← append_locked now replacement initial s
  let original = supersede now next.operation_id current
  ok ((original, next), put_operation id original appended)

unfoldable pub resolve_locked :
    ℕ → Text → Intent → Status → State → Outcome ((Operation × Operation) × State)
unfolding resolved_before resolve_now
resolve_locked now id replacement initial s = do
  current ← or_fail (lookup id s.operations) not_found
  if current.status == Status.superseded
      then resolved_before replacement s current
      else resolve_now now id replacement initial s current
