-- ===== src/Journal/History/Calls.antt =====
-- The public methods as calls on the file, each of which leaves the file or makes one step.
use mathlib.Core.Path.{subst}
use malt.Base.{
  ℕ, ◌≡◌, ◌⊎◌, inl, inr, refl, some, Text, List, [], ok, >>=-eq-ok, ◌>>=◌, arith, trim_space,
  Option-cases,
}
use malt.Base.Cids.{CidCodec}
use malt.Base.Durable.{Io, reload, writes}
use malt.Base.Durable.Laws.{call-disk}
use malt.Journal.Types.{Status, Intent, State, Outcome, problem, io_failed}
use malt.Journal.Normalize.{normalize_intent, normalize_operation_ids}
use malt.Journal.Load.{empty_state, save, load}
use malt.Journal.Store.Locked.{append_locked, transition_locked, resolve_locked}
use malt.Journal.Store.Batches.{freeze_batch_locked, conflict_batch_locked, complete_batch_locked}
use malt.Journal.Store.Prune.{prune_locked}
use malt.Journal.Store.Methods
use malt.Journal.Store.Methods.{
  Disk, journal_call, check_initial, check_conflict_id, check_operation_id, check_append,
}
use malt.Journal.History.Steps.{Step}

pub data Call : Type 0 where
  append : Intent → Status → Call
  freeze mark_offline : Text → Call
  mark_conflicted complete : Text → Text → Call
  freeze_batch : List Text → Call
  mark_batch_conflicted complete_batch : List Text → Text → Call
  resolve_conflict : Text → Intent → Status → Call
  prune_completed : Call

module _ ⦃cids : CidCodec⦄ where
  -- The file after a call.
  unfoldable pub perform : Io → ℕ → Call → Disk → Disk
  perform io now (append raw initial) disk = (Methods.append io now raw initial disk).1
  perform io now (freeze raw) disk = (Methods.freeze_for_upload io now raw disk).1
  perform io now (mark_offline raw) disk = (Methods.mark_offline io now raw disk).1
  perform io now (mark_conflicted raw c) disk = (Methods.mark_conflicted io now raw c disk).1
  perform io now (complete raw root) disk = (Methods.complete io now raw root disk).1
  perform io now (freeze_batch raw) disk = (Methods.freeze_batch_for_upload io now raw disk).1
  perform io now (mark_batch_conflicted raw c) disk =
      (Methods.mark_batch_conflicted io now raw c disk).1
  perform io now (complete_batch raw root) disk = (Methods.complete_batch io now raw root disk).1
  perform io now (resolve_conflict raw intent initial) disk =
      (Methods.resolve_conflict io now raw intent initial disk).1
  perform io now prune_completed disk = (Methods.prune_completed io disk).1

  -- What a call reads.
  abbrev pub read : Io → Disk → Outcome State
  read io disk = reload load save empty_state (problem io_failed) io disk

  abbrev pub Stepped : Io → ℕ → Disk → Disk → Type 0
  Stepped io now disk after =
      (after ≡ disk)
      ⊎ ((s : State) × (t : State) × (read io disk ≡ ok s) × Step now s t × (after ≡ some (save t)))

  -- A call whose operation makes steps.
  stepping :
      {X A : Type 0} (io : Io) (now : ℕ) (f : X → State → Outcome (A × State)) (checked : Outcome X)
      (disk : Disk)
      → ((x : X) (s : State) (a : A) (t : State)
          → checked ≡ ok x
          → f x s ≡ ok (a, t)
          → Step now s t)
      → Stepped io now disk (journal_call io checked (λ x s. writes (f x s)) disk).1
  unfolding journal_call
  stepping io now f checked disk step =
      elim (call-disk load save empty_state (problem io_failed) io f checked disk) [
        | inl e ↦ inl e
        | inr (x, s, a, t, c, r, made, e) ↦ inr (s, t, r, step x s a t c made, e)
      ]

  append-checked :
      (raw : Intent) (initial : Status) (intent : Intent)
      → check_append raw initial ≡ ok intent
      → (normalize_intent raw ≡ ok intent) × (check_initial initial ≡ ok tt)
  unfolding check_append check_initial
  append-checked raw initial intent h =
      let (i, n, h1) = >>=-eq-ok (normalize_intent raw) _ h in
      let (_, c, h2) = >>=-eq-ok (check_initial initial) _ h1 in
      let same : i ≡ intent = ground arith in (subst (λ x. normalize_intent raw ≡ ok x) same n, c)

  conflict-checked :
      (c : Text) (k : Outcome Text) {id : Text}
      → (check_conflict_id c >>= λ _. k) ≡ ok id
      → check_conflict_id c ≡ ok (trim_space c)
  unfolding check_conflict_id
  conflict-checked c k h = ground arith

  conflict_batch-checked :
      (raw : List Text) (c : Text) (checked : List Text × Text)
      → Methods.check_conflict_batch raw c ≡ ok checked
      → check_conflict_id c ≡ ok checked.1
  conflict_batch-checked raw c checked h =
      let (ids, _, h1) = >>=-eq-ok (normalize_operation_ids raw) _ h in
      let (d, passed, h2) = >>=-eq-ok (check_conflict_id c) _ h1 in
      let same : d ≡ checked.1 = ground arith in subst (λ x. check_conflict_id c ≡ ok x) same passed

  complete_batch-checked :
      (raw : List Text) (root : Text) (checked : List Text × Text)
      → Methods.check_complete_batch raw root ≡ ok checked
      → cids.parse (trim_space root) ≡ some checked.1
  complete_batch-checked raw root checked h =
      let (ids, _, h1) = >>=-eq-ok (normalize_operation_ids raw) _ h in ground (arith, h1)

  resolve-checked :
      (raw : Text) (intent : Intent) (initial : Status) (checked : Text × Intent)
      → Methods.check_resolve raw intent initial ≡ ok checked
      → (normalize_intent intent ≡ ok checked.1) × (check_initial initial ≡ ok tt)
  unfolding check_initial
  resolve-checked raw intent initial checked h =
      let (id, _, h1) = >>=-eq-ok (check_operation_id raw) _ h in
      let (i, n, h2) = >>=-eq-ok (normalize_intent intent) _ h1 in
      let (_, c, h3) = >>=-eq-ok (check_initial initial) _ h2 in
      let same : i ≡ checked.1 = ground arith in
      (subst (λ x. normalize_intent intent ≡ ok x) same n, c)

  -- A public method, whatever fails in it, leaves the file as it was, or read a state and stored
  -- one that a single step of the abstract relation leads to.
  pub perform-Stepped :
      (io : Io) (now : ℕ) (c : Call) (disk : Disk) → Stepped io now disk (perform io now c disk)
  unfolding perform Methods.append Methods.freeze_for_upload Methods.mark_offline
      Methods.mark_conflicted Methods.complete Methods.freeze_batch_for_upload
      Methods.mark_batch_conflicted Methods.complete_batch Methods.resolve_conflict
      Methods.prune_completed
  perform-Stepped io now (append raw initial) disk =
      stepping io now (λ intent s. append_locked now intent initial s) (check_append raw initial)
        disk
        λ intent s o t c h.
          let (n, i) = append-checked raw initial intent c in Step.append raw intent initial o n i h
  perform-Stepped io now (freeze raw) disk =
      stepping io now (λ id s. transition_locked now id Status.pending_upload [] [] s)
        (check_operation_id raw) disk λ id s o t c h. Step.freeze id o h
  perform-Stepped io now (mark_offline raw) disk =
      stepping io now (λ id s. transition_locked now id Status.offline_only [] [] s)
        (check_operation_id raw) disk λ id s o t c h. Step.go_offline id o h
  perform-Stepped io now (mark_conflicted raw c) disk =
      stepping io now (λ id s. transition_locked now id Status.conflicted (trim_space c) [] s)
        (do _ ← check_conflict_id c; check_operation_id raw) disk
        λ id s o t passed h. Step.conflict id c (trim_space c) o (conflict-checked c _ passed) h
  perform-Stepped io now (complete raw root) disk =
      elim (Option-cases (cids.parse (trim_space root))) [
        | inl e ↦ inl (rw (e, perform, Methods.complete) refl)
        | inr (r, e) ↦
            rw (e, perform, Methods.complete)
              (stepping io now (λ id s. transition_locked now id Status.completed [] r s)
                (check_operation_id raw) disk
                λ id s o t c h. Step.complete id (trim_space root) r o e h)
      ]
  perform-Stepped io now (freeze_batch raw) disk =
      stepping io now (λ ids s. freeze_batch_locked now ids s) (normalize_operation_ids raw) disk
        λ ids s os t c h. Step.freeze_batch ids os h
  perform-Stepped io now (mark_batch_conflicted raw c) disk =
      stepping io now (λ checked s. conflict_batch_locked now checked.1 checked.0 s)
        (Methods.check_conflict_batch raw c) disk
        λ checked s os t passed h.
          Step.conflict_batch checked.0 c checked.1 os (conflict_batch-checked raw c checked passed)
            h
  perform-Stepped io now (complete_batch raw root) disk =
      stepping io now (λ checked s. complete_batch_locked now checked.1 checked.0 s)
        (Methods.check_complete_batch raw root) disk
        λ checked s os t passed h.
          Step.complete_batch checked.0 (trim_space root) checked.1 os
            (complete_batch-checked raw root checked passed) h
  perform-Stepped io now (resolve_conflict raw intent initial) disk =
      stepping io now (λ checked s. resolve_locked now checked.0 checked.1 initial s)
        (Methods.check_resolve raw intent initial) disk
        λ checked s ops t passed h.
          let (n, i) = resolve-checked raw intent initial checked passed in
          Step.resolve checked.0 intent checked.1 initial ops.0 ops.1 n i h
  perform-Stepped io now prune_completed disk =
      stepping {A = ℕ} io now (λ _ s. ok (prune_locked s)) (ok tt) disk
        λ _ s n t c h. Step.prune (ground arith)
