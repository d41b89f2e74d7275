-- ===== src/Bucket/Sync/Methods.antt =====
-- The public methods of `Service`. What the remote returns, the time, the random identity and the
-- outcome of each file access are arguments.
use malt.Base.{
  ℕ, not, ◌||◌, Option, [], Text, text_eq, nat_eq, ◌==◌, ok, err, ◌>>=◌, ◌>>◌, refuse_if, or_fail,
  if◌then◌else◌, trim_space,
}
use malt.Base.Cids.{CidCodec}
use malt.Base.Durable.{Io, Outcome as Commit, reads, writes, call}
use malt.Bucket.Branch.{normalize_selector}
use malt.Bucket.Types.{
  ObservedHead, ApplyRequest, ApplyResult, Head, Stash, Workspace, Workspaces, Document, Error,
  Outcome, undefined_candidate, invalid_branch, invalid_root, incomplete_stash, empty_response,
  empty_stash_id, wrong_dataset, io_failed,
}
use malt.Bucket.Node.{normalize_apply_request, validate_observed_head, validate_apply_result}
use malt.Bucket.Load.{pending, workspace_key, validate_head, save, load}
use malt.Bucket.Sync.Locked.{
  Service, workspace, pull_locked, current_base, stage_locked, restore_locked, freeze_locked,
  settle_locked, resolve_locked, head_from_ref,
}

abbrev pub Disk : Type 0
Disk = Option Document

-- One access to the file: its failures and its time.
pub record Access : Type 0 where
  pub io : Io
  pub now : ℕ

-- A response of the remote: it may fail, and may be nil.
abbrev pub Response : Type 0 → Type 0
Response A = Outcome (Option A)

-- ValidateBinding of nodeapi, for the dataset and branch that the remote is bound to.
unfoldable pub validate_binding : Text → Text → Text → Text → Outcome (Unit {0})
validate_binding dataset_id branch bound_dataset bound_branch = do
  selected ← or_fail (normalize_selector branch) invalid_branch
  bound ← or_fail (normalize_selector bound_branch) invalid_branch
  refuse_if
      (trim_space dataset_id == []
        || (not (bound_dataset == dataset_id) || not (bound == selected)))
      wrong_dataset

-- The request of a frozen stash: its identity, and the base that was recorded when it was staged.
unfoldable pub push_request : Service → Stash → ApplyRequest
push_request s stash = record {
  operation_id = stash.push_id;
  branch = s.branch;
  base_commit = stash.base.commit_id;
  base_root = stash.base.root;
  candidate_root = stash.candidate_root;
  base_revision = stash.base.revision;
  change_set_cid = stash.change_set_cid;
  message = stash.message;
  merge_policy = [];
}

module _ ⦃cids : CidCodec⦄ where
  unfoldable pub sync_call :
      {X A : Type 0}
      → Io
      → Outcome X
      → (X → Workspaces → Commit Error A Workspaces)
      → Disk
      → Outcome A × Disk
  unfolding call load save
  sync_call = call load save [] io_failed

  unfoldable pub check_open : Text → Text → Text → Text → Outcome Service
  unfolding validate_binding workspace_key
  check_open bucket_id branch bound_dataset bound_branch = do
    selected ← or_fail (normalize_selector branch) invalid_branch
    let id = trim_space bucket_id
    refuse_if (id == []) wrong_dataset
    validate_binding id selected bound_dataset bound_branch
    ok (record { bucket_id = id; branch = selected; state_key = workspace_key id selected })

  -- OpenRemoteBranch, for a remote that is not nil and a path that is not empty
  unfoldable pub open_remote_branch : Io → Text → Text → Text → Text → Disk → Outcome Service × Disk
  unfolding sync_call check_open
  open_remote_branch io bucket_id branch bound_dataset bound_branch =
      sync_call io (check_open bucket_id branch bound_dataset bound_branch) (λ s _. reads (ok s))

  unfoldable pub check_observed : Service → Response ObservedHead → Outcome Head
  check_observed s response = do
    answered ← response
    observed ← or_fail answered empty_response
    validate_observed_head s.bucket_id s.branch observed
    validate_head (head_from_ref observed)
    ok (head_from_ref observed)

  unfoldable pub pull : Service → Access → Response ObservedHead → Disk → Outcome Workspace × Disk
  unfolding sync_call check_observed pull_locked
  pull s a response =
      sync_call a.io (check_observed s response) (λ head all. writes (pull_locked s a.now head all))

  unfoldable pub read_current_base : Service → Io → Text → Disk → Outcome Head × Disk
  unfolding sync_call current_base
  read_current_base s io base_root =
      sync_call io (ok base_root) (λ want all. reads (current_base s want all))

  unfoldable pub check_stage : Text → Head → Outcome (Unit {0})
  check_stage candidate base = do
    refuse_if (candidate == []) undefined_candidate
    validate_head base

  unfoldable pub stage :
      Service → Access → Option Text → Text → Head → Text → Text → Disk → Outcome Stash × Disk
  unfolding sync_call check_stage stage_locked
  stage s a id candidate base change_set message =
      sync_call a.io (check_stage candidate base)
        (λ _ all. writes (stage_locked s a.now id candidate base change_set message all))

  unfoldable pub check_restore : Stash → Outcome Stash
  check_restore stash = do
    refuse_if
        (stash.id == []
          || (stash.push_id == [] || (not (stash.status == pending) || not stash.request_frozen)))
        incomplete_stash
    _ ← or_fail (cids.parse stash.candidate_root) invalid_root
    validate_head stash.base
    _ ←
        if stash.change_set_cid == []
        then ok []
        else or_fail (cids.parse stash.change_set_cid) invalid_root
    refuse_if (stash.created_at == 0) incomplete_stash
    ok (record stash { message = trim_space stash.message })

  unfoldable pub restore_pending : Service → Access → Stash → Disk → Outcome Stash × Disk
  unfolding sync_call check_restore restore_locked
  restore_pending s a stash =
      sync_call a.io (check_restore stash)
        (λ checked all. writes (restore_locked s a.now checked all))

  unfoldable pub check_candidate : Text → Outcome (Unit {0})
  check_candidate candidate = refuse_if (candidate == []) undefined_candidate

  -- The first part of Push: the request is frozen before any network access.
  unfoldable pub push_freeze : Service → Access → Text → Text → Text → Disk → Outcome Stash × Disk
  unfolding sync_call check_candidate freeze_locked
  push_freeze s a candidate change_set message =
      sync_call a.io (check_candidate candidate)
        (λ _ all. writes (freeze_locked s a.now candidate change_set message all))

  -- ApplyCandidate, between the checks on the request and on the answer.
  unfoldable pub exchange :
      Service → Stash → (ApplyRequest → Response ApplyResult) → Outcome ApplyResult
  unfolding push_request
  exchange s stash remote = do
    request ← normalize_apply_request s.branch (push_request s stash)
    answered ← remote request
    result ← or_fail answered empty_response
    validate_apply_result s.bucket_id request result
    ok result

  unfoldable pub push_settle :
      Service
      → Access
      → Stash
      → Outcome ApplyResult
      → Disk
      → Outcome (ApplyResult × Workspace) × Disk
  unfolding sync_call settle_locked
  push_settle s a stash exchanged = sync_call a.io exchanged (λ result all.
      writes (do (w, all') ← settle_locked s a.now stash.id result all; ok ((result, w), all')))

  -- What follows the Pull of a Push.
  unfoldable pub push_observed :
      Service
      → Access
      → (ApplyRequest → Response ApplyResult)
      → Stash
      → Outcome Workspace × Disk
      → Outcome (ApplyResult × Workspace) × Disk
  unfolding exchange push_settle
  push_observed s a remote stash (err e, disk) = (err e, disk)
  push_observed s a remote stash (ok _, disk) = push_settle s a stash (exchange s stash remote) disk

  unfoldable pub push_frozen :
      Service
      → Access
      → Access
      → Response ObservedHead
      → (ApplyRequest → Response ApplyResult)
      → Outcome Stash × Disk
      → Outcome (ApplyResult × Workspace) × Disk
  unfolding pull push_observed
  push_frozen s a2 a3 observed remote (err e, disk) = (err e, disk)
  push_frozen s a2 a3 observed remote (ok stash, disk) =
      push_observed s a3 remote stash (pull s a2 observed disk)

  unfoldable pub push :
      Service
      → Access
      → Access
      → Access
      → Response ObservedHead
      → (ApplyRequest → Response ApplyResult)
      → Text
      → Text
      → Text
      → Disk
      → Outcome (ApplyResult × Workspace) × Disk
  unfolding push_freeze push_frozen
  push s a1 a2 a3 observed remote candidate change_set message disk =
      push_frozen s a2 a3 observed remote (push_freeze s a1 candidate change_set message disk)

  unfoldable pub status : Service → Io → Disk → Outcome Workspace × Disk
  unfolding sync_call workspace
  status s io = sync_call io (ok tt) (λ _ all. reads (ok (workspace s all)))

  abbrev pub check_resolve : Text → Text → Outcome (Text × Text)
  check_resolve raw_id raw_candidate = do
    refuse_if (trim_space raw_id == []) empty_stash_id
    _ ← or_fail (cids.parse (trim_space raw_candidate)) invalid_root
    ok (trim_space raw_id, trim_space raw_candidate)

  unfoldable pub resolve_branched : Service → Access → Text → Text → Disk → Outcome Workspace × Disk
  unfolding sync_call resolve_locked
  resolve_branched s a raw_id raw_candidate =
      sync_call a.io (check_resolve raw_id raw_candidate)
        (λ c all. writes (resolve_locked s a.now c.0 c.1 all))
