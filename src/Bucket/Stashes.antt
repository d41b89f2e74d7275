-- ===== src/Bucket/Stashes.antt =====
-- Stage, Push and their retries in bucketsync/service.go: what becomes of the stashes.
use mathlib.Core.Path.{subst}
use malt.Base.{
  ℕ, ◌≡◌, ◌≢◌, inl, inr, refl, ap, ◌∙◌, ◌==◌, ==_iff, ==_refl, true, Bool-cases, ok, arith, Text,
  text, ◌⊎◌, All, sort, text_ltb, text_eq, Option, Option-cases, none, some, List, [], ◌∷◌, ◌++◌,
  lookup-insert_self,
}
use malt.Bucket.Types.{Head, head_eq, Stash, Workspace, Workspaces, ApplyResult, ObservedHead}
use malt.Bucket.Load.{pending, branched}
use malt.Bucket.Sync.Locked.{
  Service, workspace, put_workspace, find_pending, new_stash, add_stash, stage_locked,
  freeze_request, mark_branched, settle_stash, is_waiting,
}
use malt.Bucket.Sync.Methods.{push_request}

find_pending-append :
    (candidate : Text) (stashes : List Stash) (stash : Stash)
    → find_pending candidate stashes ≡ none
    → is_waiting candidate stash ≡ true
    → find_pending candidate (stashes ++ (stash ∷ [])) ≡ some stash
unfolding find_pending
find_pending-append candidate [] stash n w = rw w refl
find_pending-append candidate (s ∷ ss) stash n w = elim (Bool-cases (is_waiting candidate s)) [
  | inl e ↦ absurd (ground (arith, e, n))
  | inr e ↦ rw e (find_pending-append candidate ss stash (rw e at n) w)
]

-- The workspace that is put is the one that is found.
pub workspace-put :
    (s : Service) (now : ℕ) (w : Workspace) (all : Workspaces)
    → workspace s (put_workspace s now w all)
      ≡ record w { updated_at = now; bucket_id = s.bucket_id; branch = s.branch }
unfolding workspace put_workspace
workspace-put s now w all =
    rw (lookup-insert_self s.state_key (record w { updated_at = now }) all) refl

-- A stash that waits with the candidate on the base is the answer, and nothing changes.
stage-found :
    (s : Service) (now : ℕ) (id : Option Text) (candidate : Text) (base : Head) (cs message : Text)
    (all : Workspaces) (stash : Stash)
    → (workspace s all).initialized ≡ true
    → find_pending candidate (workspace s all).stashes ≡ some stash
    → stash.base ≡ base
    → stage_locked s now id candidate base cs message all ≡ ok (stash, all)
unfolding stage_locked
stage-found s now id candidate base cs message all stash ready found same =
    rw (ready, found, same, ==_refl base) refl

stage-new :
    (s : Service) (now now' : ℕ) (fresh : Text) (id' : Option Text) (candidate : Text) (base : Head)
    (cs cs' message message' : Text) (all : Workspaces)
    → (workspace s all).initialized ≡ true
    → find_pending candidate (workspace s all).stashes ≡ none
    → let made = new_stash now fresh candidate base cs message in
      stage_locked s now' id' candidate base cs' message' (add_stash s now made all)
      ≡ ok (made, add_stash s now made all)
unfolding add_stash new_stash
stage-new s now now' fresh id' candidate base cs cs' message message' all ready absent =
    let made = new_stash now fresh candidate base cs message in
    let w = record (workspace s all) { stashes = (workspace s all).stashes ++ (made ∷ []) } in
    let waits : is_waiting candidate made ≡ true =
      ground (arith, ==_refl pending, ==_refl candidate) in
    stage-found s now' id' candidate base cs' message' _ made
      (ap (λ x. x.initialized) (workspace-put s now w all) ∙ ready)
      (ap (λ x. find_pending candidate x.stashes) (workspace-put s now w all)
        ∙ find_pending-append candidate _ made absent waits)
      refl

-- After a candidate was staged, staging it again on the same base, at any time, with any random
-- identity and any metadata, returns the same stash and changes nothing.
pub stage_locked-again :
    (s : Service) (now now' : ℕ) (id id' : Option Text) (candidate : Text) (base : Head)
    (cs cs' message message' : Text) (all all' : Workspaces) (stash : Stash)
    → stage_locked s now id candidate base cs message all ≡ ok (stash, all')
    → stage_locked s now' id' candidate base cs' message' all' ≡ ok (stash, all')
unfolding stage_locked
stage_locked-again s now now' id id' candidate base cs cs' message message' all all' stash h =
    elim (Bool-cases (workspace s all).initialized) [
      | inr unready ↦ absurd (cc (rw unready at h))
      | inl ready ↦ elim (Option-cases (find_pending candidate (workspace s all).stashes)) [
        | inl absent ↦ elim (Option-cases id) [
          | inl none_left ↦ absurd (cc (rw (ready, absent, none_left) at h))
          | inr (fresh, got) ↦
              let l = rw (ready, absent, got) at h in
              let same : new_stash now fresh candidate base cs message ≡ stash = cc in
              let after : add_stash s now (new_stash now fresh candidate base cs message) all
                  ≡ all' =
                cc in
              subst (λ p. stage_locked s now' id' candidate base cs' message' p.1 ≡ ok p)
                (ap2 same after)
                (stage-new s now now' fresh id' candidate base cs cs' message message' all ready
                  absent)
        ]
        | inr (existing, found) ↦ elim (Bool-cases (existing.base == base)) [
          | inl e ↦
              let l = rw (ready, found, e) at h in
              let same : existing ≡ stash = cc in
              let after : all ≡ all' = cc in
              subst (λ p. stage_locked s now' id' candidate base cs' message' p.1 ≡ ok p)
                (ap2 same after)
                (stage-found s now' id' candidate base cs' message' all existing ready found
                  ((==_iff existing.base base).0 e))
          | inr e ↦ absurd (cc (rw (ready, found, e) at h))
        ]
      ]
    ]
  where
    ap2 :
        {x y : Stash} {m n : Workspaces}
        → x ≡ y
        → m ≡ n
        → ◌≡◌ {A = Stash × Workspaces} (x, m) (y, n)
    ap2 e k = cc

-- Once a stash was frozen, every further freeze that succeeds, at any time and with any
-- metadata, leaves it frozen with the same request.
pub freeze_request-push_request :
    (s : Service) (now now' : ℕ) (cs cs' message message' : Text) (stash frozen again : Stash)
    → freeze_request now cs message stash ≡ ok frozen
    → freeze_request now' cs' message' frozen ≡ ok again
    → (again.request_frozen ≡ true) × (push_request s again ≡ push_request s frozen)
unfolding freeze_request push_request
freeze_request-push_request s now now' cs cs' message message' stash frozen again h k =
    elim (Bool-cases stash.request_frozen) [ inl e ↦ ground (arith, e) | inr e ↦ ground (arith, e) ]

-- What marking a stash makes of it: it is branched, has the branch and the conflicts of the answer,
-- these sorted by coordinate, and is the same stash in everything else.
pub record IsMarked (now : ℕ) (result : ApplyResult) (stash made : Stash) : Type 0 where
  pub status : made.status ≡ text "branched"
  pub named : (h : ObservedHead) → result.branch ≡ some h → made.branch ≡ h.name
  pub kept_name : result.branch ≡ none → made.branch ≡ stash.branch
  pub conflicts : made.conflicts ≡ sort (λ a b. text_ltb a.coordinate b.coordinate) result.conflicts
  pub at : made.updated_at ≡ now
  pub rest :
      record made {
        status = stash.status;
        branch = stash.branch;
        conflicts = stash.conflicts;
        updated_at = stash.updated_at;
      }
      ≡ stash

mark_branched-IsMarked :
    (now : ℕ) (result : ApplyResult) (stash : Stash)
    → IsMarked now result stash (mark_branched now result stash)
unfolding mark_branched
mark_branched-IsMarked now result stash = record {
  status = refl;
  named = λ h e. rw e refl;
  kept_name = λ e. rw e refl;
  conflicts = refl;
  at = refl;
  rest = refl;
}

-- What the stashes are after a push settled. The one with the identity, which no stash before it
-- has, is replaced by a marked one or is gone; those around it stay as they are, in their order.
pub record IsSettledAt (now : ℕ) (id : Text) (result : ApplyResult) (stashes after : List Stash)
    : Type 0 where
  pub before : List Stash
  pub stash : Stash
  pub others : List Stash
  pub found : stashes ≡ before ++ (stash ∷ others)
  pub named : stash.id ≡ id
  pub first : All (λ s. s.id ≢ id) before
  pub marked :
      result.status ≡ text "branched"
      → (made : Stash) × IsMarked now result stash made × (after ≡ before ++ (made ∷ others))
  pub removed : result.status ≢ text "branched" → after ≡ before ++ others

IsSettledAt-later :
    (now : ℕ) (id : Text) (result : ApplyResult) (s : Stash) (stashes after : List Stash)
    → s.id ≢ id
    → IsSettledAt now id result stashes after
    → IsSettledAt now id result (s ∷ stashes) (s ∷ after)
IsSettledAt-later now id result s stashes after n k = record {
  before = s ∷ k.before;
  stash = k.stash;
  others = k.others;
  found = ap (λ x. s ∷ x) k.found;
  named = k.named;
  first = (n, k.first);
  marked = λ b. let (made, m, e) = k.marked b in (made, m, ap (λ x. s ∷ x) e);
  removed = λ b. ap (λ x. s ∷ x) (k.removed b);
}

-- Settling an answer leaves the stashes if none has the identity. If not, the first one that has
-- it is replaced by itself marked as branched, with the branch and the conflicts of the answer,
-- these sorted by coordinate, if the answer is branched, and is removed otherwise; every other
-- stash stays as it is.
pub settle_stash-IsSettled :
    (now : ℕ) (id : Text) (result : ApplyResult) (stashes : List Stash)
    → (All (λ s. s.id ≢ id) stashes × (settle_stash now id result stashes ≡ stashes))
      ⊎ IsSettledAt now id result stashes (settle_stash now id result stashes)
unfolding settle_stash
settle_stash-IsSettled now id result [] = inl (tt, refl)
settle_stash-IsSettled now id result (stash ∷ rest) = elim (Bool-cases (stash.id == id)) [
  | inl e ↦ inr (record {
    before = [];
    stash = stash;
    others = rest;
    found = refl;
    named = (==_iff stash.id id).0 e;
    first = tt;
    marked = λ b.
        let told : (result.status == branched) ≡ true = (==_iff result.status branched).1 b in
        (
          mark_branched now result stash,
          mark_branched-IsMarked now result stash,
          rw (e, told) refl,
        );
    removed = λ n. elim (Bool-cases (result.status == branched)) [
      | inl b ↦ absurd (n ((==_iff result.status branched).0 b))
      | inr b ↦ rw (e, b) refl
    ];
  })
  | inr e ↦
      let other : stash.id ≢ id = λ x. ground (arith, e, x) in
      elim (settle_stash-IsSettled now id result rest) [
        | inl (none_has, same) ↦ inl ((other, none_has), rw (e, same) refl)
        | inr k ↦ inr (rw e (IsSettledAt-later now id result stash rest _ other k))
      ]
]
