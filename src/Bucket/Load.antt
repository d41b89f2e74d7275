-- ===== src/Bucket/Load.antt =====
-- reload, write, workspaceKey, validateHead and monotonicHead of bucketsync/service.go.
use malt.Base.{
  ℕ, ◌+◌, ◌-◌, ◌*◌, ◌/◌, ◌%◌, Bool, false, not, ◌&&◌, ◌||◌, none, some, List, [], ◌∷◌, ◌++◌, Text,
  text, text_eq, nat_eq, ◌==◌, ltb, ok, err, ◌>>=◌, ◌>>◌, refuse_if, or_fail, if◌then◌else◌, bytes,
  map,
}
use malt.Base.Cids.{CidCodec}
use malt.Bucket.Branch.{normalize_selector}
use malt.Bucket.Types.{
  Conflict, Head, Stash, Workspace, Workspaces, Document, Outcome, head_eq, workspace_version,
  invalid_head, conflicting_revisions, bad_version, bad_key, bad_stash,
}

abbrev pub pending : Text
pending = text "pending"

abbrev pub branched : Text
branched = text "branched"

-- The alphabet of base64.RawURLEncoding.
unfoldable pub base64_digit : ℕ → ℕ
base64_digit n =
    if ltb n 26
    then b'A' + n
    else if ltb n 52
    then b'a' + (n - 26)
    else if ltb n 62
    then b'0' + (n - 52)
    else if n == 62
    then b'-'
    else b'_'

unfoldable pub base64 : List ℕ → Text
unfolding base64_digit
base64 [] = []
base64 (a ∷ []) = base64_digit (a / 4) ∷ base64_digit (a % 4 * 16) ∷ []
base64 (a ∷ b ∷ []) =
    base64_digit (a / 4) ∷ base64_digit (a % 4 * 16 + b / 16) ∷ base64_digit (b % 16 * 4) ∷ []
base64 (a ∷ b ∷ c ∷ rest) =
    base64_digit (a / 4)
    ∷ base64_digit (a % 4 * 16 + b / 16)
    ∷ base64_digit (b % 16 * 4 + c / 64)
    ∷ base64_digit (c % 64)
    ∷ base64 rest

unfoldable pub workspace_key : Text → Text → Text
unfolding base64
workspace_key bucket_id branch = bucket_id ++ (text "@" ++ base64 (bytes branch))

unfoldable pub has_pending : List Stash → Bool
has_pending [] = false
has_pending (s ∷ ss) = s.status == pending || (s.status == branched || has_pending ss)

-- The head with the higher revision; one revision names one commit and root.
unfoldable pub monotonic_head : Head → Head → Outcome Head
monotonic_head current incoming =
    if ltb incoming.revision current.revision
    then ok current
    else if ltb current.revision incoming.revision
    then ok incoming
    else if current == incoming
    then ok current
    else err conflicting_revisions

-- A string that json.MarshalIndent wrote, when it is read again: an invalid byte of it is U+FFFD.
unfoldable pub json_text : Text → Text
json_text [] = []
json_text (c ∷ cs) = (if ltb c 0x110000 then c else 0xFFFD) ∷ json_text cs

abbrev pub json_head : Head → Head
json_head h = record h { commit_id = json_text h.commit_id; root = json_text h.root }

abbrev pub json_conflict : Conflict → Conflict
json_conflict c = record {
  coordinate = json_text c.coordinate;
  base = json_text c.base;
  local = json_text c.local;
  remote = json_text c.remote;
}

abbrev pub json_stash : Stash → Stash
json_stash s = record s {
  id = json_text s.id;
  push_id = json_text s.push_id;
  candidate_root = json_text s.candidate_root;
  base = json_head s.base;
  change_set_cid = json_text s.change_set_cid;
  message = json_text s.message;
  status = json_text s.status;
  branch = json_text s.branch;
  conflicts = map json_conflict s.conflicts;
}

abbrev pub json_workspace : Workspace → Workspace
json_workspace w = record w {
  bucket_id = json_text w.bucket_id;
  branch = json_text w.branch;
  base = json_head w.base;
  remote = json_head w.remote;
  stashes = map json_stash w.stashes;
}

-- Two keys that become the same one both stay in the list, where Go's decoder keeps one of them.
unfoldable pub json_workspaces : Workspaces → Workspaces
unfolding json_text
json_workspaces [] = []
json_workspaces ((key, w) ∷ rest) = (json_text key, json_workspace w) ∷ json_workspaces rest

-- write, as what the file decodes to
unfoldable pub save : Workspaces → Document
unfolding json_workspaces
save workspaces = record {
  version = workspace_version;
  workspaces = some (json_workspaces workspaces);
}

module _ ⦃cids : CidCodec⦄ where
  unfoldable pub validate_head : Head → Outcome (Unit {0})
  validate_head h =
      if h.commit_id == []
      then refuse_if (not (h.root == []) || not (h.revision == 0)) invalid_head
      else (do
        refuse_if (h.root == [] || h.revision == 0) invalid_head
        _ ← or_fail (cids.parse h.root) invalid_head
        ok tt)

  unfoldable pub check_stashes : List Stash → Outcome (Unit {0})
  unfolding validate_head
  check_stashes [] = ok tt
  check_stashes (s ∷ ss) = do
    refuse_if
        (s.id == []
          || (s.push_id == [] || (not (s.status == pending) && not (s.status == branched))))
        bad_stash
    _ ← or_fail (cids.parse s.candidate_root) bad_stash
    validate_head s.base
    check_stashes ss

  -- One record of the file. The normalized branch is checked, and not stored.
  unfoldable pub check_workspace : Text → Workspace → Outcome (Unit {0})
  unfolding validate_head check_stashes workspace_key
  check_workspace key w = do
    branch ← or_fail (normalize_selector w.branch) bad_key
    refuse_if (not (workspace_key w.bucket_id branch == key)) bad_key
    validate_head w.base
    validate_head w.remote
    check_stashes w.stashes

  unfoldable pub check_workspaces : Workspaces → Outcome (Unit {0})
  unfolding check_workspace
  check_workspaces [] = ok tt
  check_workspaces ((key, w) ∷ rest) = do check_workspace key w; check_workspaces rest

  unfoldable pub load : Document → Outcome Workspaces
  unfolding check_workspaces
  load d = do
    refuse_if (not (d.version == workspace_version)) bad_version
    elim d.workspaces [
      | none ↦ ok []
      | some workspaces ↦ do check_workspaces workspaces; ok workspaces
    ]
