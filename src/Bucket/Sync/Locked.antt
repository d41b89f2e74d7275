-- ===== src/Bucket/Sync/Locked.antt =====
-- The callbacks that the methods of `Service` run on the loaded workspaces.
use malt.Base.{
  ℕ, Bool, true, false, not, ◌&&◌, Option, none, some, List, [], ◌∷◌, ◌++◌, Text, text, text_eq,
  ◌==◌, ok, err, ◌>>=◌, ◌>>◌, refuse_if, or_fail, if◌then◌else◌, trim_space, text_ltb, sort, lookup,
  insert,
}
use malt.Base.Cids.{CidCodec}
use malt.Bucket.Types.{
  ObservedHead, Conflict, ApplyResult, Head, Stash, Workspace, Workspaces, Outcome, head_eq,
  empty_head, not_initialized, not_staged, base_mismatch, staged_elsewhere, no_randomness,
  conflicting_stash, pending_elsewhere, retry_change_set, retry_message, not_branched,
  stash_not_found,
}
use malt.Bucket.Load.{pending, branched, has_pending, monotonic_head, validate_head}

pub record Service : Type 0 where
  pub bucket_id : Text
  pub branch : Text
  pub state_key : Text

abbrev pub no_workspace : Workspace
no_workspace = record {
  bucket_id = [];
  branch = [];
  initialized = false;
  base = empty_head;
  remote = empty_head;
  stashes = [];
  updated_at = 0;
}

abbrev pub or_zero : Option Workspace → Workspace
or_zero none = no_workspace
or_zero (some w) = w

unfoldable pub workspace : Service → Workspaces → Workspace
workspace s all = record (or_zero (lookup s.state_key all)) {
  bucket_id = s.bucket_id;
  branch = s.branch;
}

unfoldable pub put_workspace : Service → ℕ → Workspace → Workspaces → Workspaces
put_workspace s now w all = insert s.state_key (record w { updated_at = now }) all

-- The base follows the remote head unless a stash waits.
unfoldable pub advance_base : Workspace → Outcome Workspace
advance_base w =
    if has_pending w.stashes
    then ok w
    else (do base ← monotonic_head w.base w.remote; ok (record w { base = base }))

unfoldable pub pull_workspace : Head → Workspace → Outcome Workspace
unfolding advance_base
pull_workspace observed w = do
  remote ← monotonic_head w.remote observed
  advance_base (record w { initialized = true; remote = remote })

unfoldable pub pull_locked : Service → ℕ → Head → Workspaces → Outcome (Workspace × Workspaces)
unfolding workspace put_workspace pull_workspace
pull_locked s now observed all = do
  w ← pull_workspace observed (workspace s all)
  ok (record w { updated_at = now }, put_workspace s now w all)

unfoldable pub current_base : Service → Text → Workspaces → Outcome Head
unfolding workspace
current_base s want all = do
  let w = workspace s all
  refuse_if (not w.initialized) not_initialized
  refuse_if (not (w.base.root == want)) base_mismatch
  ok w.base

abbrev pub is_waiting : Text → Stash → Bool
is_waiting candidate stash = stash.status == pending && stash.candidate_root == candidate

unfoldable pub find_pending : Text → List Stash → Option Stash
find_pending candidate [] = none
find_pending candidate (stash ∷ rest) =
    if is_waiting candidate stash then some stash else find_pending candidate rest

unfoldable pub new_stash : ℕ → Text → Text → Head → Text → Text → Stash
new_stash now id candidate base change_set message = record {
  id = id;
  push_id = text "push_" ++ id;
  candidate_root = candidate;
  base = base;
  change_set_cid = change_set;
  message = trim_space message;
  request_frozen = false;
  status = pending;
  branch = [];
  conflicts = [];
  created_at = now;
  updated_at = now;
}

unfoldable pub add_stash : Service → ℕ → Stash → Workspaces → Workspaces
unfolding workspace put_workspace
add_stash s now stash all =
    let w = workspace s all in
    put_workspace s now (record w { stashes = w.stashes ++ (stash ∷ []) }) all

-- `id` is what randomID returned, if it returned one.
unfoldable pub stage_locked :
    Service
    → ℕ
    → Option Text
    → Text
    → Head
    → Text
    → Text
    → Workspaces
    → Outcome (Stash × Workspaces)
unfolding workspace find_pending new_stash add_stash
stage_locked s now id candidate base change_set message all = do
  refuse_if (not (workspace s all).initialized) not_initialized
  elim (find_pending candidate (workspace s all).stashes) [
    | some existing ↦ if existing.base == base then ok (existing, all) else err staged_elsewhere
    | none ↦ do
      fresh ← or_fail id no_randomness
      let stash = new_stash now fresh candidate base change_set message
      ok (stash, add_stash s now stash all)
  ]

unfoldable pub same_frozen_stash : Stash → Stash → Bool
same_frozen_stash existing restored =
    existing.id == restored.id
    && (existing.push_id == restored.push_id
        && (existing.candidate_root == restored.candidate_root
            && (existing.base == restored.base
                && (existing.change_set_cid == restored.change_set_cid
                    && (existing.message == restored.message
                        && (existing.request_frozen && existing.status == pending))))))

-- The loop of RestorePending: the stash with the identity, if it is the same one.
unfoldable pub find_restored : Stash → List Stash → Outcome (Option Stash)
unfolding same_frozen_stash
find_restored stash [] = ok none
find_restored stash (existing ∷ rest) =
    let later = find_restored stash rest in
    if existing.id == stash.id
    then (if same_frozen_stash existing stash then ok (some existing) else err conflicting_stash)
    else if is_waiting stash.candidate_root existing
    then err pending_elsewhere
    else later

unfoldable pub restore_locked : Service → ℕ → Stash → Workspaces → Outcome (Stash × Workspaces)
unfolding workspace find_restored add_stash
restore_locked s now stash all = do
  refuse_if (not (workspace s all).initialized) not_initialized
  found ← find_restored stash (workspace s all).stashes
  let restored = record stash { updated_at = now }
  elim found [
    | some existing ↦ ok (existing, all)
    | none ↦ ok (restored, add_stash s now restored all)
  ]

-- A text of a retry may be left out, and must otherwise be the frozen one.
abbrev pub contradicts : Text → Text → Bool
contradicts requested frozen = not (requested == []) && not (requested == frozen)

abbrev pub or_keep : Text → Text → Text
or_keep requested old = if requested == [] then old else requested

unfoldable pub freeze_request : ℕ → Text → Text → Stash → Outcome Stash
freeze_request now change_set message stash =
    if stash.request_frozen
    then (do
      refuse_if (contradicts change_set stash.change_set_cid) retry_change_set
      refuse_if (contradicts message stash.message) retry_message
      ok (record stash { updated_at = now }))
    else ok (record stash {
      change_set_cid = or_keep change_set stash.change_set_cid;
      message = or_keep message stash.message;
      request_frozen = true;
      updated_at = now;
    })

-- The loop of Push over the stashes: the first that waits with the candidate is frozen.
unfoldable pub freeze_stashes : ℕ → Text → Text → Text → List Stash → Outcome (Stash × List Stash)
unfolding freeze_request
freeze_stashes now candidate change_set message [] = err not_staged
freeze_stashes now candidate change_set message (stash ∷ rest) =
    let later = freeze_stashes now candidate change_set message rest in
    if is_waiting candidate stash
    then (do frozen ← freeze_request now change_set message stash; ok (frozen, frozen ∷ rest))
    else (do (frozen, others) ← later; ok (frozen, stash ∷ others))

unfoldable pub freeze_locked :
    Service → ℕ → Text → Text → Text → Workspaces → Outcome (Stash × Workspaces)
unfolding workspace put_workspace freeze_stashes
freeze_locked s now candidate change_set message all = do
  let w = workspace s all
  refuse_if (not w.initialized) not_initialized
  (frozen, stashes) ← freeze_stashes now candidate change_set (trim_space message) w.stashes
  ok (frozen, put_workspace s now (record w { stashes = stashes }) all)

abbrev before_coordinate : Conflict → Conflict → Bool
before_coordinate a b = text_ltb a.coordinate b.coordinate

abbrev pub branch_name : Option ObservedHead → Text → Text
branch_name none old = old
branch_name (some h) old = h.name

unfoldable pub mark_branched : ℕ → ApplyResult → Stash → Stash
mark_branched now result stash = record stash {
  status = branched;
  branch = branch_name result.branch stash.branch;
  conflicts = sort before_coordinate result.conflicts;
  updated_at = now;
}

-- The loop of Push after the remote answered: a merged stash is removed, a branched one is marked.
unfoldable pub settle_stash : ℕ → Text → ApplyResult → List Stash → List Stash
unfolding mark_branched
settle_stash now id result [] = []
settle_stash now id result (stash ∷ rest) =
    let later = settle_stash now id result rest in
    if stash.id == id
    then (if result.status == branched then mark_branched now result stash ∷ rest else rest)
    else stash ∷ later

abbrev pub head_from_ref : ObservedHead → Head
head_from_ref h = record { commit_id = h.commit_id; root = h.root; revision = h.revision }

unfoldable pub remove_stash : Text → Text → List Stash → Outcome (List Stash)
remove_stash id candidate [] = err stash_not_found
remove_stash id candidate (stash ∷ rest) =
    let later = remove_stash id candidate rest in
    if stash.id == id
    then if stash.status == branched && stash.candidate_root == candidate
      then ok rest
      else err not_branched
    else (do others ← later; ok (stash ∷ others))

unfoldable pub resolve_locked :
    Service → ℕ → Text → Text → Workspaces → Outcome (Workspace × Workspaces)
unfolding workspace put_workspace remove_stash advance_base
resolve_locked s now id candidate all = do
  stashes ← remove_stash id candidate (workspace s all).stashes
  w ← advance_base (record (workspace s all) { stashes = stashes })
  ok (record w { updated_at = now }, put_workspace s now w all)

module _ ⦃cids : CidCodec⦄ where
  unfoldable pub settle_locked :
      Service → ℕ → Text → ApplyResult → Workspaces → Outcome (Workspace × Workspaces)
  unfolding workspace put_workspace settle_stash advance_base
  settle_locked s now id result all = do
    let w = workspace s all
    validate_head (head_from_ref result.head)
    remote ← monotonic_head w.remote (head_from_ref result.head)
    w' ← advance_base (record w { stashes = settle_stash now id result w.stashes; remote = remote })
    ok (record w' { updated_at = now }, put_workspace s now w' all)
