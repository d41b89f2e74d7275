-- ===== src/Bucket/Types.antt =====
-- The data of nodeapi/dataset.go and bucketsync/service.go. A time is a number, zero for the zero time.
use native.Mathlib.Decide.{ℕ_discrete}
use malt.Base.{ℕ, Bool, Option, List, [], Text, Map, Eq, Result}

-- nodeapi.ObservedHead, less its author and times, which no check reads
pub record ObservedHead : Type 0 where
  pub dataset_id : Text
  pub name : Text
  pub kind : Text
  pub state : Text
  pub commit_id : Text
  pub root : Text
  pub revision : ℕ

-- nodeapi.Commit
pub record Commit : Type 0 where
  pub id : Text
  pub dataset_id : Text
  pub root : Text
  pub parents : List Text
  pub base_root : Text
  pub author : Text
  pub credential : Text
  pub change_set_cid : Text
  pub message : Text
  pub created_at : ℕ

unfoldable pub Commit-discrete : Discrete Commit
unfolding ℕ_discrete
Commit-discrete = hlevel ℕ_discrete

instance abbrev pub commit_eq : Eq Commit
commit_eq = record { dec = Commit-discrete }

pub record Conflict : Type 0 where
  pub coordinate : Text
  pub base : Text
  pub local : Text
  pub remote : Text

pub record ApplyRequest : Type 0 where
  pub operation_id : Text
  pub branch : Text
  pub base_commit : Text
  pub base_root : Text
  pub candidate_root : Text
  pub base_revision : ℕ
  pub change_set_cid : Text
  pub message : Text
  pub merge_policy : Text

pub record ApplyResult : Type 0 where
  pub status : Text
  pub head : ObservedHead
  pub candidate : Commit
  pub commit : Commit
  pub branch : Option ObservedHead
  pub merge_base : Text
  pub conflicts : List Conflict

pub record Head : Type 0 where
  pub commit_id : Text
  pub root : Text
  pub revision : ℕ

unfoldable pub Head-discrete : Discrete Head
unfolding ℕ_discrete
Head-discrete = hlevel ℕ_discrete

instance abbrev pub head_eq : Eq Head
head_eq = record { dec = Head-discrete }

abbrev pub empty_head : Head
empty_head = record { commit_id = []; root = []; revision = 0 }

pub record Stash : Type 0 where
  pub id : Text
  pub push_id : Text
  pub candidate_root : Text
  pub base : Head
  pub change_set_cid : Text
  pub message : Text
  pub request_frozen : Bool
  pub status : Text
  pub branch : Text
  pub conflicts : List Conflict
  pub created_at : ℕ
  pub updated_at : ℕ

pub record Workspace : Type 0 where
  pub bucket_id : Text
  pub branch : Text
  pub initialized : Bool
  pub base : Head
  pub remote : Head
  pub stashes : List Stash
  pub updated_at : ℕ

abbrev pub Workspaces : Type 0
Workspaces = Map Workspace

pub record Document : Type 0 where
  pub version : ℕ
  pub workspaces : Option Workspaces

abbrev pub workspace_version : ℕ
workspace_version = 3

pub data Error : Type 0 where
  not_initialized not_staged : Error
  invalid_head conflicting_revisions invalid_branch wrong_dataset invalid_root : Error
  base_mismatch undefined_candidate staged_elsewhere no_randomness : Error
  incomplete_stash conflicting_stash pending_elsewhere : Error
  retry_change_set retry_message remote_failed empty_response : Error
  bad_merge_policy branch_mismatch bad_operation_id bad_base invalid_request : Error
  invalid_commit result_mismatch inconsistent_result unknown_status : Error
  empty_stash_id not_branched stash_not_found : Error
  bad_version bad_key bad_stash io_failed : Error

abbrev pub Outcome : Type 0 → Type 0
Outcome A = Result Error A
