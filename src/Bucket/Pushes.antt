-- ===== src/Bucket/Pushes.antt =====
-- The first write of Push in bucketsync/service.go, its Pull, and the first write of a further Push:
-- what becomes of the stashes of the workspace over the three.
use mathlib.Core.Path.{subst}
use malt.Base.{
  ℕ, ◌≡◌, inl, inr, sym, ap, ◌∙◌, true, false, Bool-cases, ok, arith, >>=-eq-ok, Text, text_eq,
  some, List, [], ◌∷◌, trim_space, Result-cases, map,
}
use malt.Base.Cids.{CidCodec}
use malt.Base.Durable.{Io, reload}
use malt.Base.Durable.Laws.{call-answer}
use malt.Bucket.Types.{ObservedHead, Head, Stash, Workspace, Workspaces, io_failed}
use malt.Bucket.Load.{load, save, json_stash, json_workspaces}
use malt.Bucket.Saved.{
  IsKept, HasKeptKeys, json_workspaces-keys, stashes-json, put-keys, freeze_stashes-kept,
  reload-json,
}
use malt.Bucket.Stashes.{freeze_request-push_request, workspace-put}
use malt.Bucket.Workspaces.{pull_workspace-IsObserved}
use malt.Bucket.Sync.Locked.{
  Service, workspace, put_workspace, pull_workspace, pull_locked, freeze_request, freeze_stashes,
  freeze_locked, is_waiting,
}
use malt.Bucket.Sync.Methods.{
  Disk, Access, Response, push_freeze, pull, push_request, check_candidate, check_observed,
  sync_call,
}

freeze_request-waits :
    (now : ℕ) (candidate cs message : Text) (stash frozen : Stash)
    → freeze_request now cs message stash ≡ ok frozen
    → is_waiting candidate frozen ≡ is_waiting candidate stash
unfolding freeze_request
freeze_request-waits now candidate cs message stash frozen h =
    elim (Bool-cases stash.request_frozen) [ inl e ↦ ground (arith, e) | inr e ↦ ground (arith, e) ]

-- A stash that does not wait with the candidate is passed over.
freeze_stashes-passes :
    (now : ℕ) (candidate cs message : Text) (stash : Stash) (rest after : List Stash)
    (frozen : Stash)
    → is_waiting candidate stash ≡ false
    → freeze_stashes now candidate cs message (stash ∷ rest) ≡ ok (frozen, after)
    → (ss : List Stash) × (after ≡ stash ∷ ss)
      × (freeze_stashes now candidate cs message rest ≡ ok (frozen, ss))
unfolding freeze_stashes
freeze_stashes-passes now candidate cs message stash rest after frozen w h =
    elim (Result-cases (freeze_stashes now candidate cs message rest)) [
      | inl ((f, ss), e) ↦
          let k = rw (w, e) at h in
          let list : after ≡ stash ∷ ss = cc (k) in
          let one : f ≡ frozen = cc (k) in (ss, list, e ∙ ap (λ x. ok (x, ss)) one)
      | inr (x, e) ↦ absurd (cc (rw (w, e) at h))
    ]

-- The first one that waits is frozen.
freeze_stashes-takes :
    (now : ℕ) (candidate cs message : Text) (stash : Stash) (rest after : List Stash)
    (frozen : Stash)
    → is_waiting candidate stash ≡ true
    → freeze_stashes now candidate cs message (stash ∷ rest) ≡ ok (frozen, after)
    → (freeze_request now cs message stash ≡ ok frozen) × (after ≡ frozen ∷ rest)
unfolding freeze_stashes
freeze_stashes-takes now candidate cs message stash rest after frozen w h =
    elim (Result-cases (freeze_request now cs message stash)) [
      | inl (f, e) ↦
          let k = rw (w, e) at h in
          let one : f ≡ frozen = cc (k) in
          let list : after ≡ f ∷ rest = cc (k) in (e ∙ ap ok one, list ∙ ap (λ x. x ∷ rest) one)
      | inr (x, e) ↦ absurd (cc (rw (w, e) at h))
    ]

-- The stash that was frozen is the one that the next push finds.
freeze_stashes-again :
    (s : Service) (now now' : ℕ) (candidate cs cs' message message' : Text)
    (stashes after last : List Stash) (frozen again : Stash)
    → freeze_stashes now candidate cs message stashes ≡ ok (frozen, after)
    → freeze_stashes now' candidate cs' message' after ≡ ok (again, last)
    → push_request s again ≡ push_request s frozen
freeze_stashes-again s now now' candidate cs cs' message message' [] after last frozen again h k =
    absurd (unfold freeze_stashes in cc (h))
freeze_stashes-again s now now' candidate cs cs' message message' (stash ∷ rest) after last frozen
      again h k =
    elim (Bool-cases (is_waiting candidate stash)) [
      | inl w ↦
          let (made, list) =
            freeze_stashes-takes now candidate cs message stash rest after frozen w h in
          let waits : is_waiting candidate frozen ≡ true =
            freeze_request-waits now candidate cs message stash frozen made ∙ w in
          let (made', _) =
            freeze_stashes-takes now' candidate cs' message' frozen rest last again waits (
              subst (λ x. freeze_stashes now' candidate cs' message' x ≡ ok (again, last)) list
                k) in
          (freeze_request-push_request s now now' cs cs' message message' stash frozen again made
            made').1
      | inr w ↦
          let (ss, list, found) =
            freeze_stashes-passes now candidate cs message stash rest after frozen w h in
          let (ss', _, found') =
            freeze_stashes-passes now' candidate cs' message' stash ss last again w (
              subst (λ x. freeze_stashes now' candidate cs' message' x ≡ ok (again, last)) list
                k) in
          freeze_stashes-again s now now' candidate cs cs' message message' rest ss ss' frozen again
            found found'
    ]

freeze_locked-stashes :
    (s : Service) (now : ℕ) (candidate cs message : Text) (all after : Workspaces) (frozen : Stash)
    → freeze_locked s now candidate cs message all ≡ ok (frozen, after)
    → freeze_stashes now candidate cs (trim_space message) (workspace s all).stashes
      ≡ ok (frozen, (workspace s after).stashes)
unfolding freeze_locked
freeze_locked-stashes s now candidate cs message all after frozen h =
    elim (Bool-cases (workspace s all).initialized) [
      | inr unready ↦ absurd (cc (rw unready at h))
      | inl ready ↦
          let (p, found, same) =
            >>=-eq-ok
              (freeze_stashes now candidate cs (trim_space message) (workspace s all).stashes) _
              (rw ready at h) in
          let one : p.0 ≡ frozen = cc in
          let w = record (workspace s all) { stashes = p.1 } in
          let list : put_workspace s now w all ≡ after = cc in
          let stored : (workspace s after).stashes ≡ p.1 =
            ap (λ x. (workspace s x).stashes) (sym list)
            ∙ ap (λ x. x.stashes) (workspace-put s now w all) in
          rw stored (cc)
    ]

pull_locked-stashes :
    (s : Service) (now : ℕ) (observed : Head) (all after : Workspaces) (v : Workspace)
    → pull_locked s now observed all ≡ ok (v, after)
    → (workspace s after).stashes ≡ (workspace s all).stashes
unfolding pull_locked
pull_locked-stashes s now observed all after v h =
    let (w, pulled, same) = >>=-eq-ok (pull_workspace observed (workspace s all)) _ h in
    let list : put_workspace s now w all ≡ after = cc in
    ap (λ x. (workspace s x).stashes) (sym list)
    ∙ (ap (λ x. x.stashes) (workspace-put s now w all)
        ∙ (pull_workspace-IsObserved observed (workspace s all) w pulled).stashes)

freeze_locked-keys :
    (s : Service) (now : ℕ) (candidate cs message : Text) (all after : Workspaces) (frozen : Stash)
    → IsKept s.state_key
    → HasKeptKeys all
    → freeze_locked s now candidate cs message all ≡ ok (frozen, after)
    → HasKeptKeys after
unfolding freeze_locked
freeze_locked-keys s now candidate cs message all after frozen key keys h =
    elim (Bool-cases (workspace s all).initialized) [
      | inr unready ↦ absurd (cc (rw unready at h))
      | inl ready ↦
          let (p, found, same) =
            >>=-eq-ok
              (freeze_stashes now candidate cs (trim_space message) (workspace s all).stashes) _
              (rw ready at h) in
          let w = record (workspace s all) { stashes = p.1 } in
          let list : put_workspace s now w all ≡ after = cc in
          subst HasKeptKeys list (put-keys s now w all key keys)
    ]

pull_locked-keys :
    (s : Service) (now : ℕ) (observed : Head) (all after : Workspaces) (v : Workspace)
    → IsKept s.state_key
    → HasKeptKeys all
    → pull_locked s now observed all ≡ ok (v, after)
    → HasKeptKeys after
unfolding pull_locked
pull_locked-keys s now observed all after v key keys h =
    let (w, pulled, same) = >>=-eq-ok (pull_workspace observed (workspace s all)) _ h in
    let list : put_workspace s now w all ≡ after = cc in
    subst HasKeptKeys list (put-keys s now w all key keys)

module _ ⦃cids : CidCodec⦄ where
  -- What the file holds that an operation of the service reads.
  abbrev pub HasKeptFile : Service → Io → Disk → Type 0
  HasKeptFile s io disk =
      (all : Workspaces)
      → reload load save [] io_failed io disk ≡ ok all
      → HasKeptKeys all × (map json_stash (workspace s all).stashes ≡ (workspace s all).stashes)

  -- The stashes that are read after a write.
  read-stashes :
      (s : Service) (io : Io) (disk : Disk) (all all' : Workspaces)
      → HasKeptKeys all
      → map json_stash (workspace s all).stashes ≡ (workspace s all).stashes
      → disk ≡ some (save all)
      → reload load save [] io_failed io disk ≡ ok all'
      → HasKeptKeys all' × ((workspace s all').stashes ≡ (workspace s all).stashes)
  read-stashes s io disk all all' keys kept e r =
      let same : json_workspaces all ≡ all' = reload-json io disk all all' e r in
      (
        subst HasKeptKeys same (json_workspaces-keys all),
        ap (λ x. (workspace s x).stashes) (sym same) ∙ (stashes-json s all keys ∙ kept),
      )

  -- If a push stored its frozen request, and pulled, and the same candidate is then pushed again
  -- with any metadata and at any time, the stash that the second push freezes yields the same
  -- request as the first one, if JSON keeps the strings that the push starts from: its change
  -- set and trimmed message, the key of the workspace, and the keys and stashes of the file.
  pub push_freeze-again :
      (s : Service) (a b c : Access) (candidate cs cs' message message' : Text)
      (observed : Response ObservedHead) (disk d1 d2 d3 : Disk) (stash again : Stash)
      (w : Workspace)
      → HasKeptFile s a.io disk
      → IsKept s.state_key
      → IsKept cs
      → IsKept (trim_space message)
      → push_freeze s a candidate cs message disk ≡ (ok stash, d1)
      → pull s b observed d1 ≡ (ok w, d2)
      → push_freeze s c candidate cs' message' d2 ≡ (ok again, d3)
      → push_request s again ≡ push_request s stash
  unfolding push_freeze pull sync_call
  push_freeze-again s a b c candidate cs cs' message message' observed disk d1 d2 d3 stash again w
        file key change_set words h k l =
      let (_, all0, all1, _, r1, froze, at1) =
        (call-answer load save [] io_failed a.io
            (λ _ all. freeze_locked s a.now candidate cs message all) (check_candidate candidate)
            disk).0
          stash (ap (λ p. p.0) h) in
      let (head, all1', all2, _, r2, pulled, at2) =
        (call-answer load save [] io_failed b.io (λ o all. pull_locked s b.now o all)
            (check_observed s observed) d1).0
          w (ap (λ p. p.0) k) in
      let (_, all2', all3, _, r3, froze', _) =
        (call-answer load save [] io_failed c.io
            (λ _ all. freeze_locked s c.now candidate cs' message' all) (check_candidate candidate)
            d2).0
          again (ap (λ p. p.0) l) in
      let (keys0, kept0) = file all0 r1 in
      let frozen = freeze_locked-stashes s a.now candidate cs message all0 all1 stash froze in
      let kept1 =
        freeze_stashes-kept a.now candidate cs (trim_space message) (workspace s all0).stashes
          (workspace s all1).stashes stash change_set words kept0 frozen in
      let (keys1, one) =
        read-stashes s b.io d1 all1 all1'
          (freeze_locked-keys s a.now candidate cs message all0 all1 stash key keys0 froze) kept1
          (sym (ap (λ p. p.1) h) ∙ at1) r2 in
      let moved : (workspace s all2).stashes ≡ (workspace s all1).stashes =
        pull_locked-stashes s b.now head all1' all2 w pulled ∙ one in
      let (_, two) =
        read-stashes s c.io d2 all2 all2'
          (pull_locked-keys s b.now head all1' all2 w key keys1 pulled)
          (ap (map json_stash) moved ∙ (kept1 ∙ sym moved)) (sym (ap (λ p. p.1) k) ∙ at2) r3 in
      freeze_stashes-again s a.now c.now candidate cs cs' (trim_space message) (trim_space message')
        (workspace s all0).stashes (workspace s all1).stashes (workspace s all3).stashes stash again
        frozen
        (subst
          (λ x.
            freeze_stashes c.now candidate cs' (trim_space message') x
            ≡ ok (again, (workspace s all3).stashes))
          (two ∙ moved)
          (freeze_locked-stashes s c.now candidate cs' message' all2' all3 again froze'))
