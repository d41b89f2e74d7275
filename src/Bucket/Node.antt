-- ===== src/Bucket/Node.antt =====
-- nodeapi/dataset.go: the checks on a write request and on what an untrusted remote returns.
use malt.Base.{
  ℕ, Bool, true, false, not, ◌&&◌, ◌||◌, List, [], ◌∷◌, Text, text, text_eq, nat_eq, ◌==◌, ltb, ok,
  err, ◌>>=◌, ◌>>◌, refuse_if, or_fail, if◌then◌else◌, is_some, trim_space, split, byte_length,
  slash,
}
use malt.Base.Cids.{CidCodec}
use malt.Bucket.Branch.{main, normalize_selector, ref_name}
use malt.Bucket.Types.{
  ObservedHead, Commit, ApplyRequest, ApplyResult, Error, Outcome, commit_eq, invalid_head,
  invalid_branch, wrong_dataset, bad_merge_policy, branch_mismatch, bad_operation_id, bad_base,
  invalid_request, invalid_commit, result_mismatch, inconsistent_result, unknown_status,
}

unfoldable pub trim_request : ApplyRequest → ApplyRequest
trim_request r = record r {
  operation_id = trim_space r.operation_id;
  base_commit = trim_space r.base_commit;
  base_root = trim_space r.base_root;
  candidate_root = trim_space r.candidate_root;
  change_set_cid = trim_space r.change_set_cid;
  message = trim_space r.message;
  merge_policy = trim_space r.merge_policy;
}

-- a ≠ b, for tests
abbrev differ : Bool → Bool → Bool
differ true b = not b
differ false b = b

abbrev pub is_empty {ℓ} : {A : Type ℓ} → List A → Bool
is_empty [] = true
is_empty (x ∷ xs) = false

unfoldable pub member : Text → List Text → Bool
member k [] = false
member k (j ∷ js) = j == k || member k js

-- The list of one given text.
unfoldable pub is_only : Text → List Text → Bool
is_only k (j ∷ []) = j == k
is_only k js = false

unfoldable pub candidate_parents_match_request : Commit → ApplyRequest → Bool → Bool
unfolding is_only
candidate_parents_match_request candidate request allow_missing =
    if request.base_commit == []
    then is_empty candidate.parents
    else is_only request.base_commit candidate.parents
      || (allow_missing && is_empty candidate.parents)

unfoldable pub ref_points_to_commit : ObservedHead → Commit → Bool
ref_points_to_commit ref commit =
    ref.dataset_id == commit.dataset_id && (ref.commit_id == commit.id && ref.root == commit.root)

-- The parents of a merge: another commit, then the candidate.
unfoldable pub merge_parents : Text → List Text → Bool
merge_parents candidate (first ∷ second ∷ []) =
    not (first == [] || first == candidate) && second == candidate
merge_parents candidate parents = false

-- conflicts/<a>/<b>
unfoldable pub conflict_name : List Text → Bool
conflict_name (space ∷ first ∷ second ∷ []) =
    space == text "conflicts" && (not (first == []) && not (second == []))
conflict_name parts = false

-- The candidate of the answer is the one of the request.
unfoldable pub check_candidate_matches : ApplyRequest → ApplyResult → Outcome (Unit {0})
unfolding candidate_parents_match_request
check_candidate_matches request value = do
  refuse_if (not (value.candidate.root == request.candidate_root)) result_mismatch
  refuse_if (not (value.candidate.base_root == request.base_root)) result_mismatch
  refuse_if
      (not (value.candidate.change_set_cid == request.change_set_cid)
        || not (value.candidate.message == request.message))
      result_mismatch
  refuse_if
      (not
        (candidate_parents_match_request value.candidate request (value.status == text "branched")))
      result_mismatch

module _ ⦃cids : CidCodec⦄ where
  -- A text that may be left out, and otherwise is the string of a CID.
  unfoldable pub optional_cid : Text → Error → Outcome Text
  optional_cid raw e = if raw == [] then ok [] else or_fail (cids.parse raw) e

  unfoldable pub normalize_apply_request : Text → ApplyRequest → Outcome ApplyRequest
  unfolding trim_request optional_cid
  normalize_apply_request selected_branch raw = do
    let r = trim_request raw
    refuse_if (not (r.merge_policy == []) && not (r.merge_policy == text "preserve"))
        bad_merge_policy
    branch ← or_fail (normalize_selector r.branch) invalid_branch
    selected ← or_fail (normalize_selector selected_branch) invalid_branch
    refuse_if (not (r.branch == []) && not (branch == selected)) branch_mismatch
    refuse_if (r.operation_id == [] || ltb 256 (byte_length r.operation_id)) bad_operation_id
    candidate ← or_fail (cids.parse r.candidate_root) invalid_request
    refuse_if
        (differ (r.base_commit == []) (r.base_root == [])
          || differ (r.base_commit == []) (r.base_revision == 0))
        bad_base
    base ← optional_cid r.base_root invalid_request
    change_set ← optional_cid r.change_set_cid invalid_request
    ok (record r {
      branch = if selected == main then [] else selected;
      candidate_root = candidate;
      base_root = base;
      change_set_cid = change_set;
    })

  -- A commit identity, a root and a revision come together or not at all.
  unfoldable pub check_commit_tuple : Text → Text → ℕ → Outcome (Unit {0})
  check_commit_tuple commit_id root revision =
      if commit_id == []
      then refuse_if (not (root == []) || not (revision == 0)) invalid_head
      else (do
        refuse_if (root == [] || revision == 0) invalid_head
        _ ← or_fail (cids.parse root) invalid_head
        ok tt)

  unfoldable pub validate_observed_head : Text → Text → ObservedHead → Outcome (Unit {0})
  unfolding check_commit_tuple
  validate_observed_head dataset_id branch value = do
    want_name ← or_fail (ref_name branch) invalid_branch
    let want_kind = if want_name == main then text "main" else text "explicit"
    refuse_if
        (trim_space dataset_id == []
          || (not (value.dataset_id == dataset_id)
              || (not (value.name == want_name)
                  || (not (value.kind == want_kind) || not (value.state == text "open")))))
        wrong_dataset
    check_commit_tuple value.commit_id value.root value.revision

  -- The loop over the parents of a commit, with those seen so far.
  unfoldable pub check_parents : Text → List Text → List Text → Outcome (Unit {0})
  unfolding member
  check_parents id seen [] = ok tt
  check_parents id seen (p ∷ ps) = do
    refuse_if (p == [] || p == id) invalid_commit
    refuse_if (member p seen) invalid_commit
    check_parents id (p ∷ seen) ps

  unfoldable pub validate_commit : Text → Commit → Outcome (Unit {0})
  unfolding optional_cid check_parents
  validate_commit dataset_id value = do
    refuse_if (value.id == [] || not (value.dataset_id == dataset_id)) invalid_commit
    _ ← or_fail (cids.parse value.root) invalid_commit
    _ ← optional_cid value.base_root invalid_commit
    _ ← optional_cid value.change_set_cid invalid_commit
    check_parents value.id [] value.parents

  unfoldable pub validate_conflict_ref : Text → ObservedHead → Outcome (Unit {0})
  unfolding conflict_name
  validate_conflict_ref dataset_id value = do
    refuse_if
        (not (value.dataset_id == dataset_id)
          || (not (value.kind == text "conflict")
              || (not (value.state == text "open")
                  || not (conflict_name (split slash value.name)))))
        wrong_dataset
    refuse_if (value.commit_id == [] || (value.root == [] || value.revision == 0)) invalid_head
    _ ← or_fail (cids.parse value.root) invalid_head
    ok tt

  -- The cases of the status.
  unfoldable pub check_fast_forward : ApplyRequest → ApplyResult → Outcome (Unit {0})
  unfolding ref_points_to_commit
  check_fast_forward request value = do
    refuse_if
        (is_some value.branch
          || (not (is_empty value.conflicts)
              || (not (value.merge_base == []) || value.head.commit_id == [])))
        inconsistent_result
    refuse_if
        (not (value.candidate == value.commit) || not (value.commit.root == request.candidate_root))
        inconsistent_result
    refuse_if (not (ref_points_to_commit value.head value.commit)) inconsistent_result

  unfoldable pub check_merged : ApplyRequest → ApplyResult → Outcome (Unit {0})
  unfolding ref_points_to_commit merge_parents
  check_merged request value = do
    refuse_if (request.merge_policy == text "preserve") inconsistent_result
    refuse_if
        (is_some value.branch
          || (not (is_empty value.conflicts)
              || (value.candidate.id == value.commit.id || value.head.commit_id == [])))
        inconsistent_result
    refuse_if (not (value.merge_base == request.base_root)) inconsistent_result
    refuse_if (not (merge_parents value.candidate.id value.commit.parents)) inconsistent_result
    refuse_if (value.commit.base_root == []) inconsistent_result
    refuse_if (not (ref_points_to_commit value.head value.commit)) inconsistent_result

  unfoldable pub check_branched : Text → ApplyRequest → ApplyResult → Outcome (Unit {0})
  unfolding ref_points_to_commit validate_conflict_ref
  check_branched dataset_id request value = do
    branch ← or_fail value.branch inconsistent_result
    refuse_if
        (not (value.candidate == value.commit)
          || (is_empty value.conflicts || not (value.merge_base == request.base_root)))
        inconsistent_result
    validate_conflict_ref dataset_id branch
    refuse_if (not (ref_points_to_commit branch value.candidate)) inconsistent_result

  unfoldable pub check_status : Text → ApplyRequest → ApplyResult → Outcome (Unit {0})
  unfolding check_fast_forward check_merged check_branched
  check_status dataset_id request value =
      if value.status == text "fast_forward"
      then check_fast_forward request value
      else if value.status == text "merged"
      then check_merged request value
      else if value.status == text "branched"
      then check_branched dataset_id request value
      else err unknown_status

  unfoldable pub validate_apply_result : Text → ApplyRequest → ApplyResult → Outcome (Unit {0})
  unfolding normalize_apply_request validate_observed_head validate_commit check_candidate_matches
      check_status
  validate_apply_result dataset_id raw value = do
    request ← normalize_apply_request raw.branch raw
    validate_observed_head dataset_id request.branch value.head
    validate_commit dataset_id value.candidate
    validate_commit dataset_id value.commit
    check_candidate_matches request value
    check_status dataset_id request value
