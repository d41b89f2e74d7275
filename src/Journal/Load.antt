-- ===== src/Journal/Load.antt =====
-- reloadLocked, writeLocked and emptyState of journal/store.go.
use malt.Base.{
  ℕ, Bool, false, not, ◌&&◌, ◌||◌, Option, none, some, List, [], ◌∷◌, Text, text_eq, nat_eq, ◌==◌,
  leb, ok, ◌>>=◌, ◌>>◌, refuse_if, or_fail, if◌then◌else◌, trim_space, valid_utf8, Map, lookup,
  present,
}
use malt.Base.Cids.{CidCodec}
use malt.Journal.Types.{
  Status, Operation, State, Document, Outcome, problem, status_eq, journal_version, bad_version,
  bad_persisted_identity, duplicate_sequence, duplicate_retry, missing_tombstone, bad_tombstone,
  bad_replacement, shared_replacement,
}
use malt.Journal.Normalize.{normalize_operation, member}

abbrev pub empty_state : State
empty_state = record {
  next_sequence = 1;
  operations = [];
  used_operation_ids = [];
  used_retry_ids = [];
}

-- What writeLocked encodes.
unfoldable pub save : State → Document
save s = record {
  version = journal_version;
  next_sequence = s.next_sequence;
  operations = some s.operations;
  used_operation_ids = some s.used_operation_ids;
  used_retry_ids = some s.used_retry_ids;
}

unfoldable pub seen_sequence : ℕ → List ℕ → Bool
seen_sequence n [] = false
seen_sequence n (m ∷ ms) = m == n || seen_sequence n ms

-- The checks on one operation, given what was seen before it.
unfoldable pub check_persisted : State → List ℕ → List Text → Text → Operation → Outcome (Unit {0})
unfolding seen_sequence member
check_persisted s sequences retries id o = do
  refuse_if (not (o.operation_id == id) || (o.sequence == 0 || leb s.next_sequence o.sequence))
      (problem bad_persisted_identity)
  refuse_if (seen_sequence o.sequence sequences) (problem duplicate_sequence)
  refuse_if (member o.retry_id retries) (problem duplicate_retry)
  refuse_if
      (not (present (lookup o.operation_id s.used_operation_ids))
        || not (present (lookup o.retry_id s.used_retry_ids)))
      (problem missing_tombstone)

module _ ⦃cids : CidCodec⦄ where
  -- The loop over the operations.
  unfoldable pub load_operations :
      State → List ℕ → List Text → Map Operation → Outcome (Map Operation)
  unfolding check_persisted
  load_operations s sequences retries [] = ok []
  load_operations s sequences retries ((id, raw) ∷ rest) = do
    o ← normalize_operation raw
    check_persisted s sequences retries id o
    loaded ← load_operations s (o.sequence ∷ sequences) (o.retry_id ∷ retries) rest
    ok ((id, o) ∷ loaded)

unfoldable pub load_tombstones : Map Bool → Outcome (Unit {0})
load_tombstones [] = ok tt
load_tombstones ((id, used) ∷ rest) = do
  refuse_if
      (not used || (trim_space id == [] || (not (trim_space id == id) || not (valid_utf8 id))))
      (problem bad_tombstone)
  load_tombstones rest

-- The replacement of one superseded operation: later, and on the same branch of the same dataset.
unfoldable pub valid_replacement : Operation → Option Operation → Bool
valid_replacement o none = false
valid_replacement o (some r) =
    not (leb r.sequence o.sequence) && (r.dataset_id == o.dataset_id && r.branch == o.branch)

-- The loop over the superseded operations, with the replacements seen so far.
unfoldable pub load_replacements : Map Operation → List Text → Map Operation → Outcome (Unit {0})
unfolding valid_replacement member
load_replacements all inbound [] = ok tt
load_replacements all inbound ((id, o) ∷ rest) =
    let later = load_replacements all (o.replacement_operation_id ∷ inbound) rest in
    let others = load_replacements all inbound rest in
    if o.status == Status.superseded
    then (do
      refuse_if (not (valid_replacement o (lookup o.replacement_operation_id all)))
          (problem bad_replacement)
      refuse_if (member o.replacement_operation_id inbound) (problem shared_replacement)
      later)
    else others

module _ ⦃cids : CidCodec⦄ where
  -- The checks on what was decoded.
  unfoldable pub load_state : State → Outcome State
  unfolding load_operations load_tombstones load_replacements
  load_state s = do
    refuse_if (s.next_sequence == 0) (problem bad_version)
    operations ← load_operations s [] [] s.operations
    load_tombstones s.used_operation_ids
    load_tombstones s.used_retry_ids
    load_replacements operations [] operations
    ok (record s { operations = operations })

  unfoldable pub load : Document → Outcome State
  unfolding load_state
  load d = do
    refuse_if (not (d.version == journal_version)) (problem bad_version)
    operations ← or_fail d.operations (problem bad_version)
    used_operation_ids ← or_fail d.used_operation_ids (problem bad_version)
    used_retry_ids ← or_fail d.used_retry_ids (problem bad_version)
    load_state (record {
      next_sequence = d.next_sequence;
      operations = operations;
      used_operation_ids = used_operation_ids;
      used_retry_ids = used_retry_ids;
    })
