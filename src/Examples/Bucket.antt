-- ===== src/Examples/Bucket.antt =====
-- A bucket with one staged candidate, and what the theorems say of it.
use malt.Base.{
  ◌≡◌, ◌≢◌, ◌⊎◌, refl, true, false, none, some, [], ◌∷◌, Text, text, ok, err, lookup, Text-discrete,
}
use malt.Bucket.Types.{Head, Stash, Workspace, Workspaces, conflicting_revisions}
use malt.Bucket.Branch.{main}
use malt.Bucket.Load.{workspace_key, monotonic_head, pending, branched}
use malt.Bucket.Revisions.{IsJoin, Conflicting, monotonic_head-IsJoin}
use malt.Bucket.Workspaces.{
  IsObserved, pull_workspace-IsObserved, IsResolved, remove_stash-IsResolved,
}
use malt.Bucket.Stashes.{stage_locked-again}
use malt.Bucket.Sync.Locked.{
  Service, pull_workspace, pull_locked, stage_locked, freeze_request, remove_stash,
}

abbrev pub service : Service
service = record { bucket_id = text "b"; branch = main; state_key = workspace_key (text "b") main }

abbrev pub first_head : Head
first_head = record { commit_id = text "c1"; root = text "r1"; revision = 1 }

abbrev pub second_head : Head
second_head = record { commit_id = text "c2"; root = text "r2"; revision = 2 }

abbrev pub ready : Workspace
ready = record {
  bucket_id = text "b";
  branch = main;
  initialized = true;
  base = first_head;
  remote = first_head;
  stashes = [];
  updated_at = 1;
}

abbrev pub all_ready : Workspaces
all_ready = (workspace_key (text "b") main, ready) ∷ []

abbrev pub staged : Stash
staged = record {
  id = text "s1";
  push_id = text "push_s1";
  candidate_root = text "r2";
  base = first_head;
  change_set_cid = [];
  message = text "m";
  request_frozen = false;
  status = pending;
  branch = [];
  conflicts = [];
  created_at = 2;
  updated_at = 2;
}

abbrev pub all_staged : Workspaces
all_staged =
    (workspace_key (text "b") main, record ready { stashes = staged ∷ []; updated_at = 2 }) ∷ []

stage_one :
    stage_locked service 2 (some (text "s1")) (text "r2") first_head [] (text "m") all_ready
    ≡ ok (staged, all_staged)
unfolding stage_locked lookup Text-discrete workspace_key malt.Base.bytes malt.Base.trim_space
    malt.Base.insert malt.Base.is_space
stage_one = refl

stage_locked-again_example :
    stage_locked service 3 none (text "r2") first_head [] [] all_staged ≡ ok (staged, all_staged)
stage_locked-again_example =
    stage_locked-again service 2 3 (some (text "s1")) none (text "r2") first_head [] [] (text "m")
      [] all_ready all_staged staged stage_one

monotonic_head-IsJoin_example :
    ((h : Head) × (monotonic_head first_head second_head ≡ ok h) × IsJoin first_head second_head h)
    ⊎ ((monotonic_head first_head second_head ≡ err conflicting_revisions)
        × Conflicting first_head second_head)
monotonic_head-IsJoin_example = monotonic_head-IsJoin first_head second_head

abbrev pub waiting : Workspace
waiting = record ready { stashes = staged ∷ [] }

pull_waiting : pull_workspace second_head waiting ≡ ok (record waiting { remote = second_head })
unfolding pull_workspace monotonic_head malt.Bucket.Load.has_pending Text-discrete
pull_waiting = refl

pull_workspace-IsObserved_example :
    IsObserved waiting second_head (record waiting { remote = second_head })
pull_workspace-IsObserved_example =
    pull_workspace-IsObserved second_head waiting (record waiting { remote = second_head })
      pull_waiting

abbrev pub pulled : Workspace
pulled = record ready { base = second_head; remote = second_head; updated_at = 4 }

abbrev pub all_pulled : Workspaces
all_pulled = (workspace_key (text "b") main, pulled) ∷ []

pull_one : pull_locked service 4 second_head all_ready ≡ ok (pulled, all_pulled)
unfolding pull_locked monotonic_head lookup Text-discrete workspace_key malt.Base.bytes
    malt.Bucket.Load.has_pending malt.Base.insert
pull_one = refl

abbrev pub frozen : Stash
frozen = record staged { request_frozen = true; updated_at = 5 }

freeze_one : freeze_request 5 [] [] staged ≡ ok frozen
unfolding freeze_request Text-discrete
freeze_one = refl

freeze_again : freeze_request 6 [] (text "m") frozen ≡ ok (record frozen { updated_at = 6 })
unfolding freeze_request Text-discrete
freeze_again = refl

abbrev pub set_aside : Stash
set_aside = record frozen { status = branched; branch = text "conflicts/a/b" }

remove_one : remove_stash (text "s1") (text "r2") (set_aside ∷ staged ∷ []) ≡ ok (staged ∷ [])
unfolding remove_stash Text-discrete
remove_one = refl

remove_stash-IsResolved_example :
    IsResolved (text "s1") (text "r2") (set_aside ∷ staged ∷ []) (staged ∷ [])
remove_stash-IsResolved_example =
    remove_stash-IsResolved (text "s1") (text "r2") (set_aside ∷ staged ∷ []) (staged ∷ [])
      remove_one
