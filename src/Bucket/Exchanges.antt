-- ===== src/Bucket/Exchanges.antt =====
-- Push of bucketsync/service.go from its first write to its last: what it stores before it sends
-- anything, what it sends, and what it makes of the answer.
use mathlib.Core.Path.{subst}
use malt.Base.{
  ℕ, ◌≡◌, ◌≢◌, ◌⊎◌, inl, inr, refl, sym, ap, ◌∙◌, true, Bool-cases, ok, err, arith, >>=-eq-ok,
  ◌>>=◌, Text, text, text_eq, some, List, [], ◌∷◌, or_fail, or_fail-eq-ok, trim_space, lookup,
  lookup-insert_self, All, Any,
}
use malt.Base.Cids.{CidCodec}
use malt.Base.Durable.{reload}
use malt.Base.Durable.Laws.{call-answer}
use malt.Bucket.Types.{
  ApplyRequest, ApplyResult, ObservedHead, Stash, Workspace, Workspaces, Outcome, io_failed,
}
use malt.Bucket.Node.{normalize_apply_request, validate_apply_result}
use malt.Bucket.Load.{load, save, monotonic_head, validate_head, has_pending}
use malt.Bucket.Stashes.{IsSettledAt, settle_stash-IsSettled, workspace-put}
use malt.Bucket.Answers.{IsAnswer, validate_apply_result-IsAnswer}
use malt.Bucket.Sync.Locked.{
  Service, workspace, put_workspace, freeze_request, freeze_stashes, freeze_locked, is_waiting,
  settle_locked, settle_stash, head_from_ref, advance_base,
}
use malt.Bucket.Sync.Methods.{
  Disk, Access, Response, push, push_freeze, push_frozen, push_observed, push_settle, pull,
  exchange, push_request, check_candidate, sync_call,
}

-- A stash that waits with a candidate, its request frozen.
pub record IsFrozen (candidate : Text) (stash : Stash) : Type 0 where
  pub frozen : stash.request_frozen ≡ true
  pub waits : stash.status ≡ text "pending"
  pub root : stash.candidate_root ≡ candidate

freeze_request-IsFrozen :
    (now : ℕ) (candidate cs message : Text) (stash frozen : Stash)
    → is_waiting candidate stash ≡ true
    → freeze_request now cs message stash ≡ ok frozen
    → IsFrozen candidate frozen
unfolding freeze_request
freeze_request-IsFrozen now candidate cs message stash frozen w h =
    elim (Bool-cases stash.request_frozen) [
      | inl e ↦ record {
        frozen = ground (arith, e);
        waits = ground (arith, e);
        root = ground (arith, e);
      }
      | inr e ↦ record {
        frozen = ground (arith, e);
        waits = ground (arith, e);
        root = ground (arith, e);
      }
    ]

-- The stash that is frozen is among those that are stored.
freeze_stashes-IsFrozen :
    (now : ℕ) (candidate cs message : Text) (stashes after : List Stash) (frozen : Stash)
    → freeze_stashes now candidate cs message stashes ≡ ok (frozen, after)
    → Any (λ x. x ≡ frozen) after × IsFrozen candidate frozen
unfolding freeze_stashes
freeze_stashes-IsFrozen now candidate cs message [] after frozen h = absurd (cc (h))
freeze_stashes-IsFrozen now candidate cs message (stash ∷ rest) after frozen h =
    elim (Bool-cases (is_waiting candidate stash)) [
      | inl w ↦
          let (f, made, h1) = >>=-eq-ok (freeze_request now cs message stash) _ (rw w at h) in
          let one : f ≡ frozen = cc (h1) in
          let list : f ∷ rest ≡ after = cc (h1) in
          (
            subst (Any (λ x. x ≡ frozen)) list (Any.here one),
            subst (IsFrozen candidate) one
                (freeze_request-IsFrozen now candidate cs message stash f w made),
          )
      | inr w ↦
          let (p, made, h1) =
            >>=-eq-ok (freeze_stashes now candidate cs message rest) _ (rw w at h) in
          let one : p.0 ≡ frozen = cc (h1) in
          let list : stash ∷ p.1 ≡ after = cc (h1) in
          let (found, is_frozen) =
            freeze_stashes-IsFrozen now candidate cs message rest p.1 p.0 made in
          (
            subst (Any (λ x. x ≡ frozen)) list
                (Any.there (subst (λ f. Any (λ x. x ≡ f) p.1) one found)),
            subst (IsFrozen candidate) one is_frozen,
          )
    ]

-- What was written holds the stash, frozen, in the workspace of the service.
pub record HasFrozen (s : Service) (candidate : Text) (stash : Stash) (all : Workspaces)
    : Type 0 where
  pub is_frozen : IsFrozen candidate stash
  pub found : Workspace
  pub there : lookup s.state_key all ≡ some found
  pub holds : Any (λ x. x ≡ stash) found.stashes

freeze_locked-HasFrozen :
    (s : Service) (now : ℕ) (candidate cs message : Text) (all after : Workspaces) (frozen : Stash)
    → freeze_locked s now candidate cs message all ≡ ok (frozen, after)
    → HasFrozen s candidate frozen after
unfolding freeze_locked
freeze_locked-HasFrozen s now candidate cs message all after frozen h =
    elim (Bool-cases (workspace s all).initialized) [
      | inr unready ↦ absurd (cc (rw unready at h))
      | inl ready ↦
          let (p, made, same) =
            >>=-eq-ok
              (freeze_stashes now candidate cs (trim_space message) (workspace s all).stashes) _
              (rw ready at h) in
          let w = record (workspace s all) { stashes = p.1 } in
          let one : p.0 ≡ frozen = cc in
          let list : put_workspace s now w all ≡ after = cc in
          let (holds, is_frozen) =
            freeze_stashes-IsFrozen now candidate cs (trim_space message) (workspace s all).stashes
              p.1 p.0 made in
          subst (HasFrozen s candidate frozen) list (record {
            is_frozen = subst (IsFrozen candidate) one is_frozen;
            found = record w { updated_at = now };
            there = unfold put_workspace in lookup-insert_self s.state_key _ all;
            holds = subst (λ f. Any (λ x. x ≡ f) p.1) one holds;
          })
    ]

advance_base-stashes : (w v : Workspace) → advance_base w ≡ ok v → v.stashes ≡ w.stashes
unfolding advance_base
advance_base-stashes w v h = elim (Bool-cases (has_pending w.stashes)) [
  | inl e ↦ let same : w ≡ v = ground (arith, e) in ap (λ x. x.stashes) (sym same)
  | inr e ↦
      let (base, _, made) = >>=-eq-ok (monotonic_head w.base w.remote) _ (rw e at h) in
      let same : record w { base = base } ≡ v = cc (made) in ap (λ x. x.stashes) (sym same)
]

-- What the stashes of the workspace were, and what the answer to the one with the identity made of
-- them: nothing if there is none.
abbrev pub IsSettledIn : Service → ℕ → Text → ApplyResult → Workspaces → Workspaces → Type 0
IsSettledIn s now id result all after =
    (All (λ x. x.id ≢ id) (workspace s all).stashes
      × ((workspace s after).stashes ≡ (workspace s all).stashes))
    ⊎ IsSettledAt now id result (workspace s all).stashes (workspace s after).stashes

module _ ⦃cids : CidCodec⦄ where
  settle_locked-IsSettledIn :
      (s : Service) (now : ℕ) (id : Text) (result : ApplyResult) (all after : Workspaces)
      (w : Workspace)
      → settle_locked s now id result all ≡ ok (w, after)
      → IsSettledIn s now id result all after
  unfolding settle_locked
  settle_locked-IsSettledIn s now id result all after w h =
      let before = workspace s all in
      let (_, _, h1) = >>=-eq-ok (validate_head (head_from_ref result.head)) _ h in
      let (remote, _, h2) =
        >>=-eq-ok (monotonic_head before.remote (head_from_ref result.head)) _ h1 in
      let made = record before {
        stashes = settle_stash now id result before.stashes;
        remote = remote;
      } in
      let (v, advanced, h3) = >>=-eq-ok (advance_base made) _ h2 in
      let list : put_workspace s now v all ≡ after = cc (h3) in
      let stashes : settle_stash now id result before.stashes ≡ (workspace s after).stashes = sym (
        ap (λ x. (workspace s x).stashes) (sym list)
        ∙ (ap (λ x. x.stashes) (workspace-put s now v all)
            ∙ advance_base-stashes made v advanced)) in
      subst
        (λ x.
          (All (λ y. y.id ≢ id) before.stashes × (x ≡ before.stashes))
          ⊎ IsSettledAt now id result before.stashes x)
        stashes (settle_stash-IsSettled now id result before.stashes)

  -- The exchange of a push that succeeded.
  pub record IsExchanged (s : Service) (stash : Stash)
      (remote : ApplyRequest → Response ApplyResult) (result : ApplyResult) : Type 0 where
    pub request : ApplyRequest
    pub normal : normalize_apply_request s.branch (push_request s stash) ≡ ok request
    pub answered : remote request ≡ ok (some result)
    pub valid : IsAnswer request result

  exchange-IsExchanged :
      (s : Service) (stash : Stash) (remote : ApplyRequest → Response ApplyResult)
      (result : ApplyResult)
      → exchange s stash remote ≡ ok result
      → IsExchanged s stash remote result
  unfolding exchange
  exchange-IsExchanged s stash remote result h =
      let (request, normal, h1) =
        >>=-eq-ok (normalize_apply_request s.branch (push_request s stash)) _ h in
      let (answer, answered, h2) = >>=-eq-ok (remote request) _ h1 in
      let (value, there, h3) = >>=-eq-ok (or_fail answer _) _ h2 in
      let (_, valid, h4) = >>=-eq-ok (validate_apply_result s.bucket_id request value) _ h3 in
      let same : value ≡ result = ground arith in
      let whole : answer ≡ some value = or_fail-eq-ok answer _ there in
      record {
        request = request;
        normal = normal;
        answered = answered ∙ ap ok (whole ∙ ap some same);
        valid =
            subst (λ x. IsAnswer request x) same
              (validate_apply_result-IsAnswer s.bucket_id request value valid);
      }

  -- The first write of a push.
  pub record IsStored (s : Service) (candidate : Text) (stash : Stash) (disk : Disk) : Type 0 where
    pub all : Workspaces
    pub written : disk ≡ some (save all)
    pub has_frozen : HasFrozen s candidate stash all

  -- The last one, of the workspaces that it read.
  pub record IsConcluded (s : Service) (a : Access) (stash : Stash) (result : ApplyResult)
      (before disk : Disk) : Type 0 where
    pub all : Workspaces
    pub after : Workspaces
    pub read : reload load save [] io_failed a.io before ≡ ok all
    pub written : disk ≡ some (save after)
    pub settled : IsSettledIn s a.now stash.id result all after

  push_freeze-IsStored :
      (s : Service) (a : Access) (candidate cs message : Text) (disk d1 : Disk) (stash : Stash)
      → push_freeze s a candidate cs message disk ≡ (ok stash, d1)
      → IsStored s candidate stash d1
  unfolding push_freeze sync_call
  push_freeze-IsStored s a candidate cs message disk d1 stash h =
      let (_, all, after, _, _, froze, at) =
        (call-answer load save [] io_failed a.io
            (λ _ all. freeze_locked s a.now candidate cs message all) (check_candidate candidate)
            disk).0
          stash (ap (λ p. p.0) h) in
      record {
        all = after;
        written = sym (ap (λ p. p.1) h) ∙ at;
        has_frozen = freeze_locked-HasFrozen s a.now candidate cs message all after stash froze;
      }

  -- Only a result that was exchanged is settled.
  push_settle-IsConcluded :
      (s : Service) (c : Access) (stash : Stash) (r : Outcome ApplyResult) (d2 d3 : Disk)
      (result : ApplyResult) (w : Workspace)
      → push_settle s c stash r d2 ≡ (ok (result, w), d3)
      → (r ≡ ok result) × IsConcluded s c stash result d2 d3
  unfolding push_settle sync_call
  push_settle-IsConcluded s c stash r d2 d3 result w h =
      let (x, all, after, checked, read, made, at) =
        (call-answer load save [] io_failed c.io
            (λ value all. settle_locked s c.now stash.id value all >>= λ p. ok ((value, p.0), p.1))
            r d2).0
          (result, w) (ap (λ p. p.0) h) in
      let (p, settled, same) = >>=-eq-ok (settle_locked s c.now stash.id x all) _ made in
      let one : x ≡ result = cc in
      let last : p.1 ≡ after = cc in
      (
        checked ∙ ap ok one,
        record {
          all = all;
          after = after;
          read = read;
          written = sym (ap (λ p. p.1) h) ∙ at;
          settled =
              subst (λ y. IsSettledIn s c.now stash.id y all after) one
                (subst (IsSettledIn s c.now stash.id x all) last
                  (settle_locked-IsSettledIn s c.now stash.id x all p.1 p.0 settled));
        },
      )

  -- The steps of a push that returns a result.
  pub record IsPushed (s : Service) (a b c : Access) (observed : Response ObservedHead)
      (remote : ApplyRequest → Response ApplyResult) (candidate : Text) (d3 : Disk)
      (result : ApplyResult) : Type 0 where
    pub stash : Stash
    pub d1 : Disk
    pub d2 : Disk
    pub seen : Workspace
    pub stored : IsStored s candidate stash d1
    pub pulled : pull s b observed d1 ≡ (ok seen, d2)
    pub exchanged : IsExchanged s stash remote result
    pub concluded : IsConcluded s c stash result d2 d3

  -- A push that returns a result has first written a file whose workspace holds a stash that
  -- waits with the candidate, its request frozen; then pulled; then sent the normalized request
  -- of that stash. The result is the remote's answer to it and passed the checks on it. The file
  -- that was written last has the stashes that were read before it, with the first one of that
  -- identity marked as branched if the answer is branched, and removed otherwise.
  pub push-IsExchanged :
      (s : Service) (a b c : Access) (observed : Response ObservedHead)
      (remote : ApplyRequest → Response ApplyResult) (candidate cs message : Text) (disk d3 : Disk)
      (result : ApplyResult) (w : Workspace)
      → push s a b c observed remote candidate cs message disk ≡ (ok (result, w), d3)
      → IsPushed s a b c observed remote candidate d3 result
  unfolding push push_frozen push_observed
  push-IsExchanged s a b c observed remote candidate cs message disk d3 result w h =
      frozen (push_freeze s a candidate cs message disk) refl h
    where
      pulled :
          (stash : Stash) (d1 : Disk) (p : Outcome Workspace × Disk)
          → push_freeze s a candidate cs message disk ≡ (ok stash, d1)
          → pull s b observed d1 ≡ p
          → push_observed s c remote stash p ≡ (ok (result, w), d3)
          → IsPushed s a b c observed remote candidate d3 result
      pulled stash d1 (err e, d2) f q k = absurd (cc (ap (λ x. x.0) k))
      pulled stash d1 (ok v, d2) f q k =
          let (e, concluded) =
            push_settle-IsConcluded s c stash (exchange s stash remote) d2 d3 result w k in
          record {
            stash = stash;
            d1 = d1;
            d2 = d2;
            seen = v;
            stored = push_freeze-IsStored s a candidate cs message disk d1 stash f;
            pulled = q;
            exchanged = exchange-IsExchanged s stash remote result e;
            concluded = concluded;
          }

      frozen :
          (p : Outcome Stash × Disk)
          → push_freeze s a candidate cs message disk ≡ p
          → push_frozen s b c observed remote p ≡ (ok (result, w), d3)
          → IsPushed s a b c observed remote candidate d3 result
      frozen (err e, d1) f k = absurd (cc (ap (λ x. x.0) k))
      frozen (ok stash, d1) f k = pulled stash d1 (pull s b observed d1) f refl k
