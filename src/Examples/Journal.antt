-- ===== src/Examples/Journal.antt =====
-- A journal with one directory to be made, and what the theorems say of it.
use native.Mathlib.Decide.{ℕ_discrete}
use malt.Base.{
  ◌+◌, ◌⊎◌, length, present, ◌≡◌, ◌≢◌, refl, none, some, [], ◌∷◌, List, true, insert, Text, text,
  text_eq, ok, lookup, arith, trim_space, valid_utf8, is_space, contains_rune, Text-discrete,
}
use malt.Base.Durable.{healthy, failed_after_rename}
use malt.Examples.Codec.{plain_cids, parse_plain}
use malt.Journal.Types.{Kind, Status, Status-discrete, Intent, Operation, State}
use malt.Journal.Normalize.{
  trim_intent, check_identities, normalize_path, normalize_metadata, normalize_intent,
  normalize_operation,
}
use malt.Journal.Load.{empty_state, load, save}
use malt.Journal.Store.Locked.{
  append_locked, append_new, new_operation, record_operation, transition_locked, resolve_locked,
}
use malt.Journal.Store.Prune.{prune_locked}
use malt.Journal.Store.Methods.{check_initial}
use malt.Journal.Lifetime.{Event, run, run-loads, empty-IsLoadable}
use malt.Journal.Invariant.{Inv}
use malt.Journal.Invariant.Progress.{Progress}
use malt.Journal.Invariant.Resolve.{Resolved, resolve-Resolved}
use malt.Journal.Loading.State.{Decoded, load-Inv}
use malt.Journal.Pruning.Loop.{Finished}
use malt.Journal.Pruning.Removal.{prune-count, prune-Finished, prune-unfinished}
use malt.Journal.Canonical.Rewound.{transition_locked-rewound}
use malt.Journal.History.Reach.{Reach, Reach-immutable, Reach-retired, append_locked-again}
use malt.Journal.History.Calls.{Call, perform, perform-Stepped, Stepped, read}
use malt.Journal.History.Steps.{Step, Step-Inv, Step-Progress}
use malt.Journal.Canonical.Saved.{IsLoadable, load-save}
use malt.Journal.Canonical.Steps.{Step-IsLoadable}

abbrev pub making : Intent
making = record {
  operation_id = text "op1";
  retry_id = text "retry1";
  dataset_id = text "data";
  branch = text "main";
  base_root = text "root";
  base_revision = 1;
  kind = Kind.mkdir;
  path = text "a/b";
  destination = [];
  payload_cid = [];
  encryption_epoch = 0;
}

normal_making : normalize_intent making ≡ ok making
unfolding normalize_intent ℕ_discrete Text-discrete parse_plain trim_intent check_identities
    normalize_path normalize_metadata trim_space is_space contains_rune valid_utf8
    malt.Journal.Normalize.valid_kind malt.Base.has_prefix malt.Base.contains malt.Base.clean_path
normal_making = refl

abbrev pub made : Operation
made = record {
  intent = making;
  sequence = 1;
  status = Status.local_dirty;
  conflict_id = [];
  result_root = [];
  replacement_operation_id = [];
  created_at = 5;
  updated_at = 5;
}

abbrev pub one_operation : State
one_operation = record {
  next_sequence = 2;
  operations = (text "op1", made) ∷ [];
  used_operation_ids = (text "op1", true) ∷ [];
  used_retry_ids = (text "retry1", true) ∷ [];
}

append_one : append_locked 5 making Status.local_dirty empty_state ≡ ok (made, one_operation)
unfolding append_locked append_new new_operation record_operation lookup insert Text-discrete
    ℕ_discrete
append_one = refl

initial_ok : check_initial Status.local_dirty ≡ ok tt
unfolding check_initial Status-discrete ℕ_discrete
initial_ok = refl

first_step : Step 5 empty_state one_operation
first_step = Step.append making making Status.local_dirty made normal_making initial_ok append_one

none_there : (id : Text) (o : Operation) → lookup id empty_state.operations ≢ some o
unfolding lookup
none_there id o h = cc

decoded : Decoded (some one_operation.operations)
unfolding lookup
decoded = (refl, tt)

one-IsLoadable : IsLoadable one_operation
one-IsLoadable =
    Step-IsLoadable 5 empty_state one_operation first_step empty-IsLoadable
      (omega arith, λ id o h. absurd (none_there id o h)) (omega arith)

load-save_example : load (save one_operation) ≡ ok one_operation
load-save_example = load-save one_operation one-IsLoadable

load-Inv_example : Inv one_operation
unfolding save
load-Inv_example =
    load-Inv (save one_operation) one_operation decoded (load-save one_operation one-IsLoadable)

found_of : (o : Operation) → lookup (text "op1") ((text "op1", o) ∷ []) ≡ some o
unfolding lookup Text-discrete
found_of o = refl

normal_made : normalize_operation made ≡ ok made
unfolding normalize_operation normalize_intent check_identities Text-discrete trim_intent trim_space
    is_space contains_rune valid_utf8 parse_plain malt.Journal.Normalize.valid_kind normalize_path
    malt.Base.has_prefix malt.Base.contains malt.Base.clean_path normalize_metadata
    malt.Journal.Normalize.valid_status malt.Journal.Normalize.check_lifecycle
    malt.Base.clean_segments malt.Base.clean_step malt.Base.extend_first malt.Base.join
    malt.Base.keep_trimmed malt.Base.reverse_onto malt.Base.split malt.Base.trim_left
    malt.Base.trim_right malt.Journal.Normalize.normalize_result
    malt.Journal.Normalize.trim_lifecycle Status-discrete ℕ_discrete
normal_made = refl

Step-Inv_example : Inv one_operation
Step-Inv_example = Step-Inv first_step empty-IsLoadable.inv (omega arith)

Step-Progress_example : Progress empty_state one_operation
Step-Progress_example = Step-Progress first_step empty-IsLoadable.inv

append_locked-again_example :
    append_locked 9 making Status.offline_only one_operation ≡ ok (made, one_operation)
append_locked-again_example =
    append_locked-again 5 9 making Status.local_dirty Status.offline_only empty_state one_operation
      made (λ e. cc (e)) append_one

-- The operation while its upload is pending.
abbrev pub sent : Operation
sent = record made { status = Status.pending_upload; updated_at = 6 }

abbrev pub one_sent : State
one_sent = record one_operation { operations = (text "op1", sent) ∷ [] }

freeze_one :
    transition_locked 6 (text "op1") Status.pending_upload [] [] one_operation ≡ ok (sent, one_sent)
unfolding transition_locked lookup Text-discrete Status-discrete insert
freeze_one = refl

freeze_step : Step 6 one_operation one_sent
freeze_step = Step.freeze (text "op1") sent freeze_one

Reach-immutable_example :
    (sent.intent ≡ made.intent)
    × (sent.sequence ≡ made.sequence)
    × (sent.created_at ≡ made.created_at)
Reach-immutable_example =
    Reach-immutable one_operation one_sent (text "op1") made sent
      (Reach.next Reach.start 6 freeze_step (omega arith)) one-IsLoadable.inv (found_of made)
      (found_of sent)

-- With a clock that went back before the record was made.
abbrev pub early : Operation
early = record made { status = Status.pending_upload; updated_at = 3 }

abbrev pub one_early : State
one_early = record one_operation { operations = (text "op1", early) ∷ [] }

freeze_early :
    transition_locked 3 (text "op1") Status.pending_upload [] [] one_operation
    ≡ ok (early, one_early)
unfolding transition_locked lookup Text-discrete Status-discrete insert
freeze_early = refl

transition_locked-rewound_example :
    (one_early ≡ one_operation) ⊎ ((u : State) → load (save one_early) ≢ ok u)
transition_locked-rewound_example =
    transition_locked-rewound 3 (text "op1") Status.pending_upload [] [] one_operation one_early
      early freeze_early (omega arith)

-- The operation after its upload was verified.
abbrev pub finished : Operation
finished = record sent { status = Status.completed; result_root = text "root2"; updated_at = 7 }

abbrev pub one_finished : State
one_finished = record one_operation { operations = (text "op1", finished) ∷ [] }

complete_one :
    transition_locked 7 (text "op1") Status.completed [] (text "root2") one_sent
    ≡ ok (finished, one_finished)
unfolding transition_locked lookup Text-discrete Status-discrete insert
complete_one = refl

parsed_root : parse_plain (text "root2") ≡ some (text "root2")
unfolding parse_plain Text-discrete trim_space is_space
parsed_root = refl

finished-Inv : Inv one_finished
finished-Inv =
    Step-Inv
      (Step.complete (text "op1") (text "root2") (text "root2") finished parsed_root complete_one)
      (Step-Inv freeze_step one-IsLoadable.inv (omega arith)) (omega arith)

prune-count_example :
    (prune_locked one_finished).0 + length (prune_locked one_finished).1.operations ≡ 1
prune-count_example = prune-count one_finished finished-Inv

prune-Finished_example : lookup (text "op1") (prune_locked one_finished).1.operations ≡ none
prune-Finished_example =
    prune-Finished one_finished finished-Inv (text "op1")
      (Finished.done finished (found_of finished) refl)

not-Finished : ¬ Finished one_operation.operations (text "op1")
unfolding lookup
not-Finished (Finished.done o h e) = ground arith
not-Finished (Finished.gave_way o h e f) = ground arith

prune-unfinished_example :
    lookup (text "op1") (prune_locked one_operation).1.operations
    ≡ lookup (text "op1") one_operation.operations
prune-unfinished_example =
    prune-unfinished one_operation one-IsLoadable.inv (text "op1") not-Finished

abbrev pub one_pruned : State
one_pruned = record one_operation { operations = [] }

prune_one : one_pruned ≡ (prune_locked one_finished).1
unfolding prune_locked ℕ_discrete Status-discrete malt.Base.delete Text-discrete
prune_one = refl

-- A second directory, after the first operation was pruned.
abbrev pub making_other : Intent
making_other = record making {
  operation_id = text "op2";
  retry_id = text "retry2";
  path = text "c";
}

abbrev pub made_other : Operation
made_other = record made { intent = making_other; sequence = 2; created_at = 8; updated_at = 8 }

abbrev pub after_other : State
after_other = record {
  next_sequence = 3;
  operations = (text "op2", made_other) ∷ [];
  used_operation_ids = (text "op1", true) ∷ (text "op2", true) ∷ [];
  used_retry_ids = (text "retry1", true) ∷ (text "retry2", true) ∷ [];
}

normal_other : normalize_intent making_other ≡ ok making_other
unfolding normalize_intent check_identities Text-discrete trim_intent trim_space is_space
    contains_rune valid_utf8 parse_plain malt.Journal.Normalize.valid_kind normalize_path
    malt.Base.has_prefix malt.Base.contains malt.Base.clean_path normalize_metadata
normal_other = refl

append_other :
    append_locked 8 making_other Status.local_dirty one_pruned ≡ ok (made_other, after_other)
unfolding append_locked lookup Text-discrete insert
append_other = refl

op1_used : present (lookup (text "op1") one_pruned.used_operation_ids) ≡ true
unfolding lookup Text-discrete
op1_used = refl

op1_gone : lookup (text "op1") one_pruned.operations ≡ none
unfolding lookup
op1_gone = refl

Reach-retired_example : lookup (text "op1") after_other.operations ≡ none
Reach-retired_example =
    Reach-retired one_pruned after_other (text "op1")
      (Reach.next Reach.start 8
        (Step.append making_other making_other Status.local_dirty made_other normal_other initial_ok
          append_other)
        (omega arith))
      (Step-Inv {now = 8} (Step.prune prune_one) finished-Inv (omega arith)) op1_used op1_gone

-- The operation in conflict, and the one that replaces it.
abbrev pub clashing : Operation
clashing = record sent { status = Status.conflicted; conflict_id = text "c1" }

abbrev pub one_clashing : State
one_clashing = record one_operation { operations = (text "op1", clashing) ∷ [] }

abbrev pub replaced : Operation
replaced = record clashing {
  status = Status.superseded;
  replacement_operation_id = text "op2";
  updated_at = 8;
}

abbrev pub after_resolution : State
after_resolution = record after_other {
  operations = (text "op1", replaced) ∷ (text "op2", made_other) ∷ [];
}

resolve_one :
    resolve_locked 8 (text "op1") making_other Status.local_dirty one_clashing
    ≡ ok ((replaced, made_other), after_resolution)
unfolding resolve_locked lookup Text-discrete Status-discrete insert
resolve_one = refl

resolve-Resolved_example :
    Resolved 8
      (text "op1")
      making_other
      Status.local_dirty
      one_clashing
      replaced
      made_other
      after_resolution
resolve-Resolved_example =
    resolve-Resolved 8 (text "op1") making_other Status.local_dirty one_clashing replaced made_other
      after_resolution (λ e. cc (e)) resolve_one

abbrev pub events : List Event
events =
    (record { io = healthy; now = 5; call = Call.append making Status.local_dirty })
    ∷ (record {
      io = record healthy { writing = failed_after_rename };
      now = 6;
      call = Call.freeze (text "op1");
    })
    ∷ []

run-loads_example : (s : State) × (read healthy (run events none) ≡ ok s) × IsLoadable s
run-loads_example = run-loads events (omega arith, (omega arith, tt)) (omega arith)

perform-Stepped_example :
    Stepped healthy 5 none (perform healthy 5 (Call.append making Status.local_dirty) none)
perform-Stepped_example = perform-Stepped healthy 5 (Call.append making Status.local_dirty) none
