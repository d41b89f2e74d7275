-- ===== src/Bucket/Workspaces.antt =====
-- Pull and ResolveBranched of bucketsync/service.go on one workspace: what they may move.
use malt.Base.{
  ℕ, ◌≡◌, ◌≢◌, inl, inr, sym, ap, ◌==◌, ==_iff, true, false, Bool-cases, ok, arith, >>=-eq-ok, Text,
  lookup, lookup-insert, lookup-insert_self, text_eq, some, List, [], ◌∷◌,
}
use malt.Bucket.Types.{Head, Stash, Workspace, Workspaces}
use malt.Bucket.Load.{monotonic_head, has_pending, branched}
use malt.Bucket.Revisions.{IsJoin, monotonic_head-IsJoin}
use malt.Bucket.Sync.Locked.{
  advance_base, pull_workspace, remove_stash, Service, pull_locked, workspace, put_workspace,
}

join-ok : (a b h : Head) → monotonic_head a b ≡ ok h → IsJoin a b h
join-ok a b h e = elim (monotonic_head-IsJoin a b) [
  | inl (k, e', j) ↦ let same : k ≡ h = cc in rw⁻¹ same j
  | inr (e', _) ↦ absurd (cc)
]

-- The workspace after its remote head was observed: nothing else but the base may have moved, the
-- base only forward and only if no stash waits, and then to the remote head unless it is ahead of it.
pub record IsObserved (w : Workspace) (observed : Head) (v : Workspace) : Type 0 where
  pub stashes : v.stashes ≡ w.stashes
  pub initialized : v.initialized ≡ true
  pub remote : IsJoin w.remote observed v.remote
  pub kept : has_pending w.stashes ≡ true → v.base ≡ w.base
  pub advanced : has_pending w.stashes ≡ false → IsJoin w.base v.remote v.base

-- A pull that succeeds leaves the stashes, moves the remote head and the base forward only, and
-- leaves the base while a stash waits.
pub pull_workspace-IsObserved :
    (observed : Head) (w v : Workspace) → pull_workspace observed w ≡ ok v → IsObserved w observed v
unfolding pull_workspace advance_base
pull_workspace-IsObserved observed w v h =
    let (remote, e, k) = >>=-eq-ok (monotonic_head w.remote observed) _ h in
    elim (Bool-cases (has_pending w.stashes)) [
      | inl waits ↦
          let same : record w { initialized = true; remote = remote } ≡ v = ground (arith, waits) in
          record {
            stashes = sym (ap (λ x. x.stashes) same);
            initialized = sym (ap (λ x. x.initialized) same);
            remote = rw⁻¹ same (join-ok w.remote observed remote e);
            kept = λ _. sym (ap (λ x. x.base) same);
            advanced = λ free. absurd (cc);
          }
      | inr free ↦
          let l = rw free at k in
          let (base, e', k') = >>=-eq-ok (monotonic_head w.base remote) _ l in
          let same : record w { initialized = true; remote = remote; base = base } ≡ v = cc in
          record {
            stashes = sym (ap (λ x. x.stashes) same);
            initialized = sym (ap (λ x. x.initialized) same);
            remote = rw⁻¹ same (join-ok w.remote observed remote e);
            kept = λ waits. absurd (cc);
            advanced = λ _. rw⁻¹ same (join-ok w.base remote base e');
          }
    ]

-- A pull that succeeds stores its workspace under the service's key and leaves every other key
-- as it was.
pub pull_locked-others :
    (s : Service) (now : ℕ) (observed : Head) (all all' : Workspaces) (w : Workspace) (key : Text)
    → pull_locked s now observed all ≡ ok (w, all')
    → (lookup s.state_key all' ≡ some w) × (s.state_key ≢ key → lookup key all' ≡ lookup key all)
unfolding pull_locked put_workspace
pull_locked-others s now observed all all' w key h =
    let (v, e, k) = >>=-eq-ok (pull_workspace observed (workspace s all)) _ h in
    (
      ground (arith, lookup-insert_self s.state_key (record v { updated_at = now }) all),
      λ n. ground (arith, lookup-insert s.state_key key (record v { updated_at = now }) all, n),
    )

-- One stash of the list went, which was branched with the candidate, and the rest is as it was.
pub data IsResolved (id candidate : Text) : List Stash → List Stash → Type 0 where
  gone :
      (stash : Stash) (rest : List Stash)
      → stash.id ≡ id
      → stash.status ≡ branched
      → stash.candidate_root ≡ candidate
      → IsResolved id candidate (stash ∷ rest) rest
  later :
      (stash : Stash) {rest others : List Stash}
      → stash.id ≢ id
      → IsResolved id candidate rest others
      → IsResolved id candidate (stash ∷ rest) (stash ∷ others)

-- A resolution that succeeds removes the first stash with the identity, which is branched and
-- has the candidate, and leaves the others in their order.
pub remove_stash-IsResolved :
    (id candidate : Text) (stashes others : List Stash)
    → remove_stash id candidate stashes ≡ ok others
    → IsResolved id candidate stashes others
unfolding remove_stash
remove_stash-IsResolved id candidate [] others h = absurd (cc)
remove_stash-IsResolved id candidate (stash ∷ rest) others h = elim (Bool-cases (stash.id == id)) [
  | inl e ↦
      let named : stash.id ≡ id = (==_iff stash.id id).0 e in
      let l = rw e at h in
      elim (Bool-cases (stash.status == branched)) [
        | inl b ↦ elim (Bool-cases (stash.candidate_root == candidate)) [
          | inl c ↦
              let same : rest ≡ others = ground (arith, b, c, l) in
              rw⁻¹ same (
                gone stash rest named ((==_iff stash.status branched).0 b)
                  ((==_iff stash.candidate_root candidate).0 c))
          | inr c ↦ absurd (ground (arith, b, c, l))
        ]
        | inr b ↦ absurd (ground (arith, b, l))
      ]
  | inr e ↦
      let l = rw e at h in
      let (left, k, same) = >>=-eq-ok (remove_stash id candidate rest) _ l in
      let same' : stash ∷ left ≡ others = cc in
      rw⁻¹ same'
        (later stash (λ x. ground (arith, e, x)) (remove_stash-IsResolved id candidate rest left k))
]
