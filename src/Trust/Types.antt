-- ===== src/Trust/Types.antt =====
-- The data of trust/store.go. A time is a number, zero for the zero time.
use malt.Base.{ℕ, Option, none, List, [], Text, Map, Result}

-- A locally computed or verified update that nobody has accepted yet.
pub record CandidateRoot : Type 0 where
  pub root : Text
  pub base_root : Text
  pub source : Text
  pub observed_at : ℕ

pub record AcceptedRootState : Type 0 where
  pub root : Text
  pub previous_root : Text
  pub source : Text
  pub accepted_at : ℕ

-- An untrusted remote head; source, dataset and branch name its stream.
pub record ObservedHead : Type 0 where
  pub source : Text
  pub dataset_id : Text
  pub branch : Text
  pub commit_id : Text
  pub root : Text
  pub revision : ℕ
  pub observed_at : ℕ

pub record RootState : Type 0 where
  pub alias : Text
  pub profile : Text
  pub gateway : Text
  pub accepted : Option AcceptedRootState
  pub candidates : List CandidateRoot
  pub observed_heads : List ObservedHead

abbrev pub no_root_state : RootState
no_root_state = record {
  alias = [];
  profile = [];
  gateway = [];
  accepted = none;
  candidates = [];
  observed_heads = [];
}

abbrev pub Roots : Type 0
Roots = Map RootState

-- What the JSON file decodes to.
pub record Document : Type 0 where
  pub version : ℕ
  pub roots : Option Roots

abbrev pub trust_store_version : ℕ
trust_store_version = 2

-- The package's error values, and the other refusals.
pub data Error : Type 0 where
  not_found no_accepted_root candidate_not_found observation_not_found : Error
  stale_candidate accepted_root_changed stale_observation conflicting_observation : Error
  empty_alias invalid_root invalid_base_root no_operation : Error
  incomplete_stream partial_commit_tuple incomplete_commit_tuple : Error
  bad_version bad_alias mismatched_alias bad_accepted_root bad_candidate : Error
  unexpected_base missing_base missing_time empty_state io_failed operation_failed : Error

abbrev pub Outcome : Type 0 → Type 0
Outcome A = Result Error A
