-- ===== src/Bucket/Saved.antt =====
-- What write and reload of bucketsync/service.go make of the stashes of a workspace: JSON replaces
-- the invalid bytes of a string, and keeps every other string.
use native.Mathlib.Decide.{ℕ_discrete}
use malt.Base.{
  ℕ, ◌≡◌, inl, inr, refl, sym, ap, ◌∙◌, ◌==◌, true, Bool-cases, Option-cases, ok, arith, Text,
  Text-discrete, text_eq, Option, some, List, [], ◌∷◌, map, lookup, insert, All, map_option,
  Result-cases, >>=-eq-ok,
}
use malt.Base.Cids.{CidCodec}
use malt.Base.Durable.{Io, reload}
use malt.Bucket.Types.{Stash, Workspace, Workspaces, Document, io_failed}
use malt.Bucket.Load.{
  json_text, json_stash, json_workspace, json_workspaces, save, load, check_workspaces,
}
use malt.Bucket.Sync.Locked.{
  Service, workspace, put_workspace, freeze_request, freeze_stashes, is_waiting, or_keep,
}

-- A string that JSON keeps.
abbrev pub IsKept : Text → Type 0
IsKept t = json_text t ≡ t

abbrev pub HasKeptKeys : Workspaces → Type 0
HasKeptKeys all = All (λ entry. IsKept entry.0) all

json_text-IsKept : (t : Text) → IsKept (json_text t)
unfolding json_text
json_text-IsKept [] = refl
json_text-IsKept (c ∷ cs) = ground (arith, json_text-IsKept cs)

-- After a file was written, its keys are kept.
pub json_workspaces-keys : (all : Workspaces) → HasKeptKeys (json_workspaces all)
unfolding json_workspaces
json_workspaces-keys [] = tt
json_workspaces-keys ((key, w) ∷ rest) = (json_text-IsKept key, json_workspaces-keys rest)

lookup-json :
    (key : Text) (all : Workspaces)
    → HasKeptKeys all
    → lookup key (json_workspaces all) ≡ map_option json_workspace (lookup key all)
unfolding lookup json_workspaces
lookup-json key [] k = refl
lookup-json key ((other, w) ∷ rest) k = elim (Bool-cases (other == key)) [
  | inl e ↦ rw (k.0, e) refl
  | inr e ↦ rw (k.0, e) (lookup-json key rest k.1)
]

-- The stashes of the workspace in a file that was written.
pub stashes-json :
    (s : Service) (all : Workspaces)
    → HasKeptKeys all
    → (workspace s (json_workspaces all)).stashes ≡ map json_stash (workspace s all).stashes
unfolding workspace
stashes-json s all k = elim (Option-cases (lookup s.state_key all)) [
  | inl e ↦ rw (lookup-json s.state_key all k, e) refl
  | inr (w, e) ↦ rw (lookup-json s.state_key all k, e) refl
]

pub put-keys :
    (s : Service) (now : ℕ) (w : Workspace) (all : Workspaces)
    → IsKept s.state_key
    → HasKeptKeys all
    → HasKeptKeys (put_workspace s now w all)
unfolding put_workspace insert
put-keys s now w all kept keys = into s.state_key (record w { updated_at = now }) all kept keys
  where
    into :
        (key : Text) (v : Workspace) (rest : Workspaces)
        → IsKept key
        → HasKeptKeys rest
        → HasKeptKeys (insert key v rest)
    into key v [] k h = (k, tt)
    into key v ((other, held) ∷ rest) k h = elim (Bool-cases (other == key)) [
      | inl e ↦ rw e (k, h.1)
      | inr e ↦ rw e (h.0, into key v rest k h.1)
    ]

or_keep-IsKept : (asked old : Text) → IsKept asked → IsKept old → IsKept (or_keep asked old)
unfolding Text-discrete
or_keep-IsKept [] old k l = l
or_keep-IsKept (c ∷ cs) old k l = k

freeze_request-kept :
    (now : ℕ) (cs message : Text) (stash frozen : Stash)
    → IsKept cs
    → IsKept message
    → json_stash stash ≡ stash
    → freeze_request now cs message stash ≡ ok frozen
    → json_stash frozen ≡ frozen
unfolding freeze_request
freeze_request-kept now cs message stash frozen k l same h =
    elim (Bool-cases stash.request_frozen) [
      | inl e ↦
          let one : record stash { updated_at = now } ≡ frozen = ground (arith, e) in
          let later : Stash → Stash = λ x. record x { updated_at = now } in
          ap json_stash (sym one) ∙ (ap later same ∙ one)
      | inr e ↦
          let cid = or_keep cs stash.change_set_cid in
          let words = or_keep message stash.message in
          let one : record stash {
            change_set_cid = cid;
            message = words;
            request_frozen = true;
            updated_at = now;
          }
              ≡ frozen =
            ground (arith, e) in
          let cid_kept : IsKept cid =
            or_keep-IsKept cs stash.change_set_cid k (ap (λ x. x.change_set_cid) same) in
          let words_kept : IsKept words =
            or_keep-IsKept message stash.message l (ap (λ x. x.message) same) in
          let frozen_as : Stash → Stash = λ x. record x {
            change_set_cid = json_text cid;
            message = json_text words;
            request_frozen = true;
            updated_at = now;
          } in
          ap json_stash (sym one) ∙ (ap frozen_as same ∙ (rw (cid_kept, words_kept) refl ∙ one))
    ]

-- Freezing with kept strings leaves every stash one that JSON keeps.
pub freeze_stashes-kept :
    (now : ℕ) (candidate cs message : Text) (stashes after : List Stash) (frozen : Stash)
    → IsKept cs
    → IsKept message
    → map json_stash stashes ≡ stashes
    → freeze_stashes now candidate cs message stashes ≡ ok (frozen, after)
    → map json_stash after ≡ after
unfolding freeze_stashes
freeze_stashes-kept now candidate cs message [] after frozen k l same h = absurd (cc (h))
freeze_stashes-kept now candidate cs message (stash ∷ rest) after frozen k l same h =
    let first : json_stash stash ≡ stash = cc (same) in
    let others : map json_stash rest ≡ rest = cc (same) in
    elim (Bool-cases (is_waiting candidate stash)) [
      | inl w ↦
          let (f, made, h1) = >>=-eq-ok (freeze_request now cs message stash) _ (rw w at h) in
          let list : f ∷ rest ≡ after = cc (h1) in
          let kept : json_stash f ≡ f = freeze_request-kept now cs message stash f k l first made in
          ap (map json_stash) (sym list) ∙ (cc (kept, others) ∙ list)
      | inr w ↦
          let (p, made, h1) =
            >>=-eq-ok (freeze_stashes now candidate cs message rest) _ (rw w at h) in
          let list : stash ∷ p.1 ≡ after = cc (h1) in
          let kept : map json_stash p.1 ≡ p.1 =
            freeze_stashes-kept now candidate cs message rest p.1 p.0 k l others made in
          ap (map json_stash) (sym list) ∙ (cc (kept, first) ∙ list)
    ]

module _ ⦃cids : CidCodec⦄ where
  -- What was saved is read as JSON keeps it, or refused.
  load-save_same : (all all' : Workspaces) → load (save all) ≡ ok all' → json_workspaces all ≡ all'
  unfolding load save ℕ_discrete
  load-save_same all all' h = elim (Result-cases (check_workspaces (json_workspaces all))) [
    | inl (_, e) ↦ let k = rw e at h in ground arith
    | inr (x, e) ↦ absurd (cc (rw e at h))
  ]

  pub reload-json :
      (io : Io) (disk : Option Document) (all all' : Workspaces)
      → disk ≡ some (save all)
      → reload load save [] io_failed io disk ≡ ok all'
      → json_workspaces all ≡ all'
  unfolding reload
  reload-json io disk all all' e h = elim (Bool-cases io.readable) [
    | inl r ↦ let k = rw (e, r) at h in load-save_same all all' k
    | inr r ↦ absurd (cc (rw (e, r) at h))
  ]
