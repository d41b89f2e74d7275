-- ===== src/Examples/Push.antt =====
-- A push that is answered, one whose answer is lost, and what the theorems say of them.
use mathlib.Core.Path.{subst}
use malt.Base.{
  ℕ, ◌≡◌, ◌≢◌, ◌⊎◌, refl, sym, ◌∙◌, map, All, trim_space, none, some, [], ◌∷◌, Text, text, ok,
  Text-discrete,
}
use malt.Base.Durable.{healthy}
use malt.Examples.Codec.{plain_cids, parse_plain}
use malt.Examples.Bucket.{service, second_head, ready, all_staged, frozen}
use malt.Bucket.Types.{ObservedHead, Commit, ApplyRequest, ApplyResult, Head, Stash, Workspace}
use malt.Bucket.Branch.{main}
use malt.Bucket.Load.{workspace_key, save, json_stash, json_workspaces}
use malt.Bucket.Saved.{IsKept, HasKeptKeys, reload-json}
use malt.Bucket.Stashes.{IsSettledAt, settle_stash-IsSettled}
use malt.Bucket.Answers.{IsAnswer, validate_apply_result-IsAnswer}
use malt.Bucket.Node.{validate_apply_result}
use malt.Bucket.Pushes.{HasKeptFile, push_freeze-again}
use malt.Bucket.Exchanges.{IsPushed, push-IsExchanged}
use malt.Bucket.Sync.Locked.{settle_stash, workspace}
use malt.Bucket.Sync.Methods.{
  Disk, Access, Response, push_freeze, pull, push, push_settle, push_request,
}

abbrev pub at : ℕ → Access
at now = record { io = healthy; now = now }

abbrev pub remote_head : ObservedHead
remote_head = record {
  dataset_id = text "b";
  name = main;
  kind = text "main";
  state = text "open";
  commit_id = text "c1";
  root = text "r1";
  revision = 1;
}

abbrev pub commit : Commit
commit = record {
  id = text "c2";
  dataset_id = text "b";
  root = text "r2";
  parents = text "c1" ∷ [];
  base_root = text "r1";
  author = text "me";
  credential = [];
  change_set_cid = [];
  message = text "m";
  created_at = 6;
}

abbrev pub answer : ApplyResult
answer = record {
  status = text "fast_forward";
  head = record remote_head { commit_id = text "c2"; root = text "r2"; revision = 2 };
  candidate = commit;
  commit = commit;
  branch = none;
  merge_base = [];
  conflicts = [];
}

abbrev pub branched_answer : ApplyResult
branched_answer = record answer {
  status = text "branched";
  branch = some (record remote_head { name = text "conflicts/1" });
}

settle_stash-IsSettled_example :
    (All (λ s. s.id ≢ text "s1") (frozen ∷ [])
      × (settle_stash 7 (text "s1") branched_answer (frozen ∷ []) ≡ frozen ∷ []))
    ⊎ IsSettledAt 7
        (text "s1")
        branched_answer
        (frozen ∷ [])
        (settle_stash 7 (text "s1") branched_answer (frozen ∷ []))
settle_stash-IsSettled_example = settle_stash-IsSettled 7 (text "s1") branched_answer (frozen ∷ [])

abbrev pub request : ApplyRequest
request = push_request service frozen

valid_answer : validate_apply_result (text "b") request answer ≡ ok tt
unfolding validate_apply_result Text-discrete malt.Base.trim_space push_request
    malt.Bucket.Branch.normalize_selector malt.Base.is_space malt.Base.byte_length parse_plain
    malt.Bucket.Branch.ref_name malt.Bucket.Types.Commit-discrete
valid_answer = refl

validate_apply_result-IsAnswer_example : IsAnswer request answer
validate_apply_result-IsAnswer_example =
    validate_apply_result-IsAnswer (text "b") request answer valid_answer

abbrev pub stored : Workspace → Disk
stored w = some (save ((workspace_key (text "b") main, w) ∷ []))

abbrev pub with_frozen : Workspace
with_frozen = record ready { stashes = frozen ∷ []; updated_at = 5 }

abbrev pub with_pulled : Workspace
with_pulled = record with_frozen { updated_at = 6 }

abbrev pub frozen_again : Stash
frozen_again = record frozen { updated_at = 9 }

freeze_one :
    push_freeze service (at 5) (text "r2") [] [] (some (save all_staged))
    ≡ (ok frozen, stored with_frozen)
unfolding push_freeze Text-discrete malt.Bucket.Branch.normalize_selector malt.Base.trim_space
    malt.Base.is_space malt.Base.bytes parse_plain malt.Base.lookup malt.Base.insert
freeze_one = refl

pull_one :
    pull service (at 6) (ok (some remote_head)) (stored with_frozen)
    ≡ (ok with_pulled, stored with_pulled)
unfolding pull malt.Bucket.Node.validate_observed_head malt.Bucket.Branch.ref_name Text-discrete
    malt.Base.trim_space malt.Base.is_space parse_plain malt.Base.bytes
    malt.Bucket.Load.monotonic_head malt.Base.lookup malt.Bucket.Types.Head-discrete
    malt.Bucket.Load.has_pending malt.Base.insert
pull_one = refl

freeze_two :
    push_freeze service (at 9) (text "r2") [] (text "m") (stored with_pulled)
    ≡ (ok frozen_again, stored (record with_pulled { stashes = frozen_again ∷ []; updated_at = 9 }))
unfolding push_freeze Text-discrete malt.Bucket.Branch.normalize_selector malt.Base.trim_space
    malt.Base.is_space malt.Base.bytes parse_plain malt.Base.lookup malt.Base.insert
freeze_two = refl

staged_same : json_workspaces all_staged ≡ all_staged
unfolding json_workspaces malt.Base.bytes parse_plain workspace_key
staged_same = refl

staged_kept : HasKeptFile service healthy (some (save all_staged))
unfolding json_workspaces malt.Base.lookup malt.Base.bytes Text-discrete workspace_key workspace
staged_kept all r =
    let same : all_staged ≡ all =
      sym staged_same ∙ reload-json healthy (some (save all_staged)) all_staged all refl r in
    subst
      (λ x.
        HasKeptKeys x
        × (map json_stash (workspace service x).stashes ≡ (workspace service x).stashes))
      same ((refl, tt), refl)

key-IsKept : IsKept service.state_key
unfolding malt.Bucket.Load.json_text malt.Base.bytes workspace_key
key-IsKept = refl

nothing-IsKept : IsKept []
unfolding malt.Bucket.Load.json_text
nothing-IsKept = refl

blank-IsKept : IsKept (trim_space [])
unfolding malt.Bucket.Load.json_text trim_space
blank-IsKept = refl

push_freeze-again_example : push_request service frozen_again ≡ push_request service frozen
push_freeze-again_example =
    push_freeze-again service (at 5) (at 6) (at 9) (text "r2") [] [] [] (text "m")
      (ok (some remote_head)) (some (save all_staged)) (stored with_frozen) (stored with_pulled)
      (stored (record with_pulled { stashes = frozen_again ∷ []; updated_at = 9 })) frozen
      frozen_again with_pulled staged_kept key-IsKept nothing-IsKept blank-IsKept freeze_one
      pull_one freeze_two

abbrev pub answering : ApplyRequest → Response ApplyResult
answering asked = ok (some answer)

abbrev pub with_answer : Workspace
with_answer = record ready { base = second_head; remote = second_head; updated_at = 7 }

push_one :
    push service
      (at 5)
      (at 6)
      (at 7)
      (ok (some remote_head))
      answering
      (text "r2")
      []
      []
      (some (save all_staged))
    ≡ (ok (answer, with_answer), stored with_answer)
unfolding validate_apply_result Text-discrete malt.Base.trim_space push_request
    malt.Bucket.Branch.normalize_selector malt.Base.is_space malt.Base.byte_length parse_plain
    malt.Bucket.Branch.ref_name malt.Bucket.Types.Commit-discrete push_freeze malt.Base.bytes
    malt.Base.lookup malt.Base.insert pull malt.Bucket.Node.validate_observed_head
    malt.Bucket.Load.monotonic_head malt.Bucket.Types.Head-discrete malt.Bucket.Load.has_pending
    push push_settle malt.Bucket.Sync.Locked.settle_locked malt.Bucket.Node.normalize_apply_request
push_one = refl

push-IsExchanged_example :
    IsPushed service
      (at 5)
      (at 6)
      (at 7)
      (ok (some remote_head))
      answering
      (text "r2")
      (stored with_answer)
      answer
push-IsExchanged_example =
    push-IsExchanged service (at 5) (at 6) (at 7) (ok (some remote_head)) answering (text "r2") []
      [] (some (save all_staged)) (stored with_answer) answer with_answer push_one
