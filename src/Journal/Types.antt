-- ===== src/Journal/Types.antt =====
-- The data of journal/store.go. A time is a number, zero for the zero time; a `Kind` or `Status` that
-- is none of the constants is `unknown`.
use native.Mathlib.Decide.{ℕ_discrete}
use malt.Base.{ℕ, ◌%◌, ◌^◌, Bool, Option, Text, Map, Eq, Result}

pub data Kind : Type 0 where
  write mkdir rename unlink : Kind
  unknown : Text → Kind

pub data Status : Type 0 where
  local_dirty offline_only pending_upload conflicted completed superseded : Status
  unknown : Text → Status

unfoldable pub Status-discrete : Discrete Status
unfolding ℕ_discrete
Status-discrete = hlevel ℕ_discrete

instance abbrev pub status_eq : Eq Status
status_eq = record { dec = Status-discrete }

pub record Intent : Type 0 where
  pub operation_id : Text
  pub retry_id : Text
  pub dataset_id : Text
  pub branch : Text
  pub base_root : Text
  pub base_revision : ℕ
  pub kind : Kind
  pub path : Text
  pub destination : Text
  pub payload_cid : Text
  pub encryption_epoch : ℕ

unfoldable pub Intent-discrete : Discrete Intent
unfolding ℕ_discrete
Intent-discrete = hlevel ℕ_discrete

instance abbrev pub intent_eq : Eq Intent
intent_eq = record { dec = Intent-discrete }

pub record Operation : Type 0 where
  pub intent : Intent
  pub open intent use *
  pub sequence : ℕ
  pub status : Status
  pub conflict_id : Text
  pub result_root : Text
  pub replacement_operation_id : Text
  pub created_at : ℕ
  pub updated_at : ℕ

pub record State : Type 0 where
  pub next_sequence : ℕ
  pub operations : Map Operation
  pub used_operation_ids : Map Bool
  pub used_retry_ids : Map Bool

-- What the JSON file decodes to: a map may be null.
pub record Document : Type 0 where
  pub version : ℕ
  pub next_sequence : ℕ
  pub operations : Option (Map Operation)
  pub used_operation_ids : Option (Map Bool)
  pub used_retry_ids : Option (Map Bool)

abbrev pub journal_version : ℕ
journal_version = 1

-- What `fmt.Errorf` reports without one of the package's error values.
pub data Problem : Type 0 where
  missing_identity identity_with_nul identity_not_utf8 bad_base_root bad_kind : Problem
  path_not_relative path_not_canonical : Problem
  write_with_destination bad_payload rename_with_payload rename_to_itself : Problem
  namespace_with_metadata bad_initial_status bad_conflict_id missing_operation_id : Problem
  bad_result_root empty_batch bad_batch_identity duplicate_batch_identity : Problem
  replacement_elsewhere bad_lifecycle lifecycle_not_utf8 conflict_without_identity : Problem
  unexpected_conflict bad_supersession unexpected_replacement unexpected_result : Problem
  bad_version bad_persisted_identity duplicate_sequence duplicate_retry : Problem
  missing_tombstone bad_tombstone bad_replacement shared_replacement : Problem
  no_randomness io_failed : Problem

pub data Error : Type 0 where
  not_found identity_reuse request_frozen : Error
  invalid_status : Status → Status → Error
  problem : Problem → Error

abbrev pub Outcome : Type 0 → Type 0
Outcome A = Result Error A

-- uint64
abbrev pub u64 : ℕ → ℕ
u64 n = n % 2 ^ 64
