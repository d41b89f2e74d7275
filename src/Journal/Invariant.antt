-- ===== src/Journal/Invariant.antt =====
-- What holds of the journal between two operations.
pub mod Rewrites
pub mod Lifecycle
pub mod Progress
pub mod Transitions
pub mod Appends
pub mod Batches
pub mod Settling
pub mod Resolve
use malt.Base.{◌<◌, ◌≡◌, true, some, Text, lookup, present, Distinct}
use malt.Journal.Types.{Status, Operation, State}

-- Sequences lie below the next one and tell the records apart, as retry identities do; each record
-- has its tombstones; each superseded record has a later replacement of its own on the same branch.
pub record Inv (s : State) : Type 0 where
  pub distinct : Distinct s.operations
  pub positive : 0 < s.next_sequence
  pub keyed : (id : Text) (o : Operation) → lookup id s.operations ≡ some o → o.operation_id ≡ id
  pub bounded :
      (id : Text) (o : Operation)
      → lookup id s.operations ≡ some o
      → (0 < o.sequence) × (o.sequence < s.next_sequence)
  pub used :
      (id : Text) (o : Operation)
      → lookup id s.operations ≡ some o
      → (present (lookup id s.used_operation_ids) ≡ true)
        × (present (lookup o.retry_id s.used_retry_ids) ≡ true)
  pub sequences_differ :
      (i j : Text) (o p : Operation)
      → lookup i s.operations ≡ some o
      → lookup j s.operations ≡ some p
      → o.sequence ≡ p.sequence
      → i ≡ j
  pub retries_differ :
      (i j : Text) (o p : Operation)
      → lookup i s.operations ≡ some o
      → lookup j s.operations ≡ some p
      → o.retry_id ≡ p.retry_id
      → i ≡ j
  pub replaced :
      (id : Text) (o : Operation)
      → lookup id s.operations ≡ some o
      → o.status ≡ Status.superseded
      → (r : Operation) × (lookup o.replacement_operation_id s.operations ≡ some r)
        × (o.sequence < r.sequence)
        × (r.dataset_id ≡ o.dataset_id)
        × (r.branch ≡ o.branch)
  pub replacements_differ :
      (i j : Text) (o p : Operation)
      → lookup i s.operations ≡ some o
      → lookup j s.operations ≡ some p
      → o.status ≡ Status.superseded
      → p.status ≡ Status.superseded
      → o.replacement_operation_id ≡ p.replacement_operation_id
      → i ≡ j
