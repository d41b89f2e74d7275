-- ===== src/Journal/Invariant/Progress.antt =====
-- What two states before and after an operation have in common.
use mathlib.Core.Path.{subst}
use malt.Base.{◌≡◌, true, false, Option, none, some, Text, lookup, present, arith}
use malt.Journal.Types.{Operation, State}
use malt.Journal.Invariant.Rewrites.{Rewrites}
use malt.Journal.Invariant.Lifecycle.{Evolves}

-- Records that stay have evolved by at most one edge, no tombstone is lost, and a record that is new
-- has identities that were never used.
pub record Progress (s t : State) : Type 0 where
  pub evolves :
      (j : Text) (o p : Operation)
      → lookup j s.operations ≡ some o
      → lookup j t.operations ≡ some p
      → Evolves o p
  pub keeps_ids :
      (j : Text)
      → present (lookup j s.used_operation_ids) ≡ true
      → present (lookup j t.used_operation_ids) ≡ true
  pub keeps_retries :
      (j : Text)
      → present (lookup j s.used_retry_ids) ≡ true
      → present (lookup j t.used_retry_ids) ≡ true
  pub fresh :
      (j : Text) (p : Operation)
      → lookup j s.operations ≡ none
      → lookup j t.operations ≡ some p
      → (present (lookup j s.used_operation_ids) ≡ false)
        × (present (lookup p.retry_id s.used_retry_ids) ≡ false)

pub same-Evolves : (m : Option Operation) (o p : Operation) → m ≡ some o → m ≡ some p → Evolves o p
same-Evolves none o p h k = absurd (ground arith)
same-Evolves (some q) o p h k = record {
  intent = ground arith;
  sequence = ground arith;
  created = ground arith;
  status = ground arith;
}

pub Progress-refl : (s : State) → Progress s s
Progress-refl s = record {
  evolves = λ j o p h k. same-Evolves (lookup j s.operations) o p h k;
  keeps_ids = λ j h. h;
  keeps_retries = λ j h. h;
  fresh = λ j p h k. absurd (cc);
}

pub Rewrites-Progress :
    {f : Text → Operation → Operation} {s t : State}
    → Rewrites f s t
    → ((j : Text) (o : Operation) → lookup j s.operations ≡ some o → Evolves o (f j o))
    → Progress s t
Rewrites-Progress {f} {s} {t} r e = record {
  evolves = λ j o p h k.
      let same : f j o ≡ p = ground (arith, r.at j) in subst (λ q. Evolves o q) same (e j o h);
  keeps_ids = λ j h. rw r.ids h;
  keeps_retries = λ j h. rw r.retries h;
  fresh = λ j p h k. absurd (cc (r.at j));
}
