-- ===== src/Journal/Normalize.antt =====
-- normalizeIntent, normalizeOperation, normalizePath and normalizeOperationIDs of journal/store.go.
use malt.Base.{
  Bool, true, false, not, ◌&&◌, ◌||◌, List, [], ◌∷◌, Text, text, text_eq, nat_eq, ◌==◌, ltb, ok,
  err, ◌>>=◌, ◌>>◌, refuse_if, or_fail, if◌then◌else◌, trim_space, valid_utf8, contains_rune,
  contains, has_prefix, clean_path,
}
use malt.Base.Cids.{CidCodec}
use malt.Journal.Types.{
  Kind, Status, Intent, Operation, Outcome, problem, status_eq, missing_identity, identity_with_nul,
  identity_not_utf8, bad_base_root, bad_kind, path_not_relative, path_not_canonical,
  write_with_destination, bad_payload, rename_with_payload, rename_to_itself,
  namespace_with_metadata, bad_result_root, empty_batch, bad_batch_identity,
  duplicate_batch_identity, bad_lifecycle, lifecycle_not_utf8, conflict_without_identity,
  unexpected_conflict, bad_supersession, unexpected_replacement, unexpected_result,
}

unfoldable pub valid_kind : Kind → Bool
valid_kind (Kind.unknown _) = false
valid_kind _ = true

unfoldable pub valid_status : Status → Bool
valid_status (Status.unknown _) = false
valid_status _ = true

unfoldable pub normalize_path : Text → Outcome Text
normalize_path value = do
  refuse_if
      (value == []
        || (not (valid_utf8 value)
            || (contains_rune 0 value
                || (has_prefix value (text "/") || contains value (text "\\")))))
      (problem path_not_relative)
  let cleaned = clean_path value
  refuse_if
      (cleaned == text "."
        || (cleaned == text ".." || (has_prefix cleaned (text "../") || not (cleaned == value))))
      (problem path_not_canonical)
  ok cleaned

unfoldable pub trim_intent : Intent → Intent
trim_intent i = record i {
  operation_id = trim_space i.operation_id;
  retry_id = trim_space i.retry_id;
  dataset_id = trim_space i.dataset_id;
  branch = trim_space i.branch;
  base_root = trim_space i.base_root;
  path = trim_space i.path;
  destination = trim_space i.destination;
  payload_cid = trim_space i.payload_cid;
}

-- The checks on the four identities.
unfoldable pub check_identities : Intent → Outcome (Unit {0})
check_identities i = do
  refuse_if (i.operation_id == [] || (i.retry_id == [] || (i.dataset_id == [] || i.branch == [])))
      (problem missing_identity)
  refuse_if
      (contains_rune 0 i.operation_id
        || (contains_rune 0 i.retry_id
            || (contains_rune 0 i.dataset_id || contains_rune 0 i.branch)))
      (problem identity_with_nul)
  refuse_if
      (not (valid_utf8 i.operation_id)
        || (not (valid_utf8 i.retry_id)
            || (not (valid_utf8 i.dataset_id) || not (valid_utf8 i.branch))))
      (problem identity_not_utf8)

unfoldable pub trim_lifecycle : Operation → Operation
trim_lifecycle o = record o {
  conflict_id = trim_space o.conflict_id;
  result_root = trim_space o.result_root;
  replacement_operation_id = trim_space o.replacement_operation_id;
}

-- The checks on the conflict and replacement identities.
unfoldable pub check_lifecycle : Operation → Outcome (Unit {0})
check_lifecycle o = do
  refuse_if (not (valid_utf8 o.conflict_id) || not (valid_utf8 o.replacement_operation_id))
      (problem lifecycle_not_utf8)
  refuse_if (o.status == Status.conflicted && o.conflict_id == [])
      (problem conflict_without_identity)
  refuse_if
      (not (o.status == Status.conflicted)
        && (not (o.status == Status.superseded) && not (o.conflict_id == [])))
      (problem unexpected_conflict)
  refuse_if
      (o.status == Status.superseded && (o.replacement_operation_id == [] || o.conflict_id == []))
      (problem bad_supersession)
  refuse_if (not (o.status == Status.superseded) && not (o.replacement_operation_id == []))
      (problem unexpected_replacement)

module _ ⦃cids : CidCodec⦄ where
  -- The `switch` on the kind: what belongs to the kind and nothing else.
  unfoldable pub normalize_metadata : Kind → Intent → Outcome Intent
  normalize_metadata Kind.write i = do
    refuse_if (not (i.destination == [])) (problem write_with_destination)
    payload ← or_fail (cids.parse i.payload_cid) (problem bad_payload)
    ok (record i { payload_cid = payload })
  normalize_metadata Kind.rename i = do
    refuse_if (not (i.payload_cid == [])) (problem rename_with_payload)
    destination ← normalize_path i.destination
    refuse_if (destination == i.path) (problem rename_to_itself)
    ok (record i { destination = destination })
  normalize_metadata Kind.mkdir i = do
    refuse_if (not (i.destination == []) || not (i.payload_cid == []))
        (problem namespace_with_metadata)
    ok i
  normalize_metadata Kind.unlink i = do
    refuse_if (not (i.destination == []) || not (i.payload_cid == []))
        (problem namespace_with_metadata)
    ok i
  normalize_metadata (Kind.unknown k) i = ok i

  unfoldable pub normalize_intent : Intent → Outcome Intent
  normalize_intent raw = do
    let i = trim_intent raw
    check_identities i
    root ← or_fail (cids.parse i.base_root) (problem bad_base_root)
    refuse_if (not (valid_kind i.kind)) (problem bad_kind)
    path ← normalize_path i.path
    normalize_metadata i.kind (record i { base_root = root; path = path })

  -- The result root of a completed operation in canonical form; no other operation has one.
  unfoldable pub normalize_result : Operation → Outcome Operation
  normalize_result o =
      if o.status == Status.completed
      then (do
        root ← or_fail (cids.parse o.result_root) (problem bad_result_root)
        ok (record o { result_root = root }))
      else (do refuse_if (not (o.result_root == [])) (problem unexpected_result); ok o)

  unfoldable pub normalize_operation : Operation → Outcome Operation
  normalize_operation raw = do
    intent ← normalize_intent raw.intent
    refuse_if
        (raw.sequence == 0
          || (not (valid_status raw.status)
              || (raw.created_at == 0
                  || (raw.updated_at == 0 || ltb raw.updated_at raw.created_at))))
        (problem bad_lifecycle)
    let o = trim_lifecycle (record raw { intent = intent })
    check_lifecycle o
    normalize_result o

unfoldable pub member : Text → List Text → Bool
member k [] = false
member k (j ∷ js) = j == k || member k js

-- The loop of normalizeOperationIDs, with the identities seen so far.
unfoldable pub normalize_ids : List Text → List Text → Outcome (List Text)
unfolding member
normalize_ids seen [] = ok []
normalize_ids seen (value ∷ values) =
    let id = trim_space value in
    let rest = normalize_ids (id ∷ seen) values in
    do
      refuse_if (id == [] || (not (valid_utf8 id) || contains_rune 0 id))
          (problem bad_batch_identity)
      refuse_if (member id seen) (problem duplicate_batch_identity)
      ids ← rest
      ok (id ∷ ids)

unfoldable pub normalize_operation_ids : List Text → Outcome (List Text)
unfolding normalize_ids
normalize_operation_ids [] = err (problem empty_batch)
normalize_operation_ids (v ∷ vs) = normalize_ids [] (v ∷ vs)
