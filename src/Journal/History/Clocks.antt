-- ===== src/Journal/History/Clocks.antt =====
-- What a step does to the times of creation and to the counter.
use mathlib.Core.Path.{subst}
use malt.Base.{inl, inr, ℕ, ◌+◌, ◌≤◌, ◌≡◌, ap, some, Text, lookup, arith, ok}
use malt.Base.Cids.{CidCodec}
use malt.Journal.Types.{Status, Intent, Operation, State, u64}
use malt.Journal.Store.Locked.{
  new_operation, record_operation, put_operation, change_status, supersede, transition_locked,
}
use malt.Journal.Store.Batches.{freeze_batch_locked, conflict_batch_locked, complete_batch_locked}
use malt.Journal.Store.Prune.{prune_locked}
use malt.Journal.Invariant.{Inv}
use malt.Journal.Invariant.Rewrites.{Rewrites, origin}
use malt.Journal.Invariant.Appends.{Added, Added-cases, Appended, append-Appended}
use malt.Journal.Invariant.Transitions.{transition-keeps, transition-rest, put-cases}
use malt.Journal.Invariant.Batches.{batch-Rewrites}
use malt.Journal.Invariant.Settling.{freeze-IsSettling, conflict-IsSettling, completion-IsSettling}
use malt.Journal.Invariant.Resolve.{Resolved, resolve-Resolved}
use malt.Journal.Pruning.Removal.{prune-left}
use malt.Journal.History.Steps.{Step, initial-ne-superseded}

-- No record was created after the time.
abbrev pub CreatedBy : ℕ → State → Type 0
CreatedBy now s = (id : Text) (o : Operation) → lookup id s.operations ≡ some o → o.created_at ≤ now

abbrev pub Advanced : ℕ → State → State → Type 0
Advanced now s t = CreatedBy now t × (t.next_sequence ≤ s.next_sequence + 1)

Added-next : {o : Operation} {s t : State} → Added o s t → t.next_sequence ≤ s.next_sequence + 1
unfolding record_operation
Added-next {o} {s} {t} a =
    let e : t.next_sequence ≡ u64 (s.next_sequence + 1) = ap (λ x. x.next_sequence) a.state in
    rw e (omega arith)

Added-CreatedBy :
    (now : ℕ) {o : Operation} {s t : State}
    → Added o s t
    → o.created_at ≤ now
    → CreatedBy now s
    → CreatedBy now t
Added-CreatedBy now a h c j p k = elim (Added-cases a j p k) [
  | inl (_, same) ↦ subst (λ q. q.created_at ≤ now) same h
  | inr old ↦ c j p old
]

moved-Advanced :
    (now : ℕ) (s t : State) (id : Text) (next : Status) (c root : Text) (done : Operation)
    → transition_locked now id next c root s ≡ ok (done, t)
    → CreatedBy now s
    → Advanced now s t
unfolding change_status
moved-Advanced now s t id next c root done h k = (
  transition-keeps now id next c root s done t (λ o. o.created_at ≤ now) (λ o found a. k id o found)
      k h,
  omega (arith, (transition-rest now id next c root s done t h).2),
)

rewritten-Advanced :
    (now : ℕ) (s t : State) (f : Text → Operation → Operation)
    → Rewrites f s t
    → CreatedBy now s
    → Advanced now s t
rewritten-Advanced now s t f r c = (
  λ j p h. let (o, found, k) = origin r j p h in rw k.created (c j o found),
  omega (arith, r.next),
)

new-created :
    (now : ℕ) (intent : Intent) (initial : Status) (s : State) (o : Operation)
    → o ≡ new_operation now intent initial s
    → o.created_at ≤ now
unfolding new_operation
new-created now intent initial s o e = rw e (omega arith)

Appended-Advanced :
    (now : ℕ) (intent : Intent) (initial : Status) (s t : State) (o : Operation)
    → Appended now intent initial s o t
    → CreatedBy now s
    → Advanced now s t
Appended-Advanced now intent initial s t o (inl (same, _, _)) c = rw same (c, omega arith)
Appended-Advanced now intent initial s t o (inr (a, made)) c =
    (Added-CreatedBy now a (new-created now intent initial s o made) c, Added-next a)

resolved-Advanced :
    (now : ℕ) (id : Text) (intent : Intent) (initial : Status) (s t : State)
    (original next : Operation)
    → Resolved now id intent initial s original next t
    → CreatedBy now s
    → Advanced now s t
resolved-Advanced now id intent initial s t original next (inl before) c =
    rw (before.unchanged) (c, omega arith)
resolved-Advanced now id intent initial s t original next
      (inr (current, a, found, _, _, _, added, made, gone, state)) c =
    let old : original.created_at ≤ now = rw gone (unfold supersede in c id current found) in
    let before = Added-CreatedBy now added (new-created now intent initial s next made) c in
    (
      λ j p h.
          elim (put-cases id j original p a (subst (λ x. lookup j x.operations ≡ some p) state h)) [
            | inl (_, same) ↦ subst (λ q. q.created_at ≤ now) same old
            | inr (_, k) ↦ before j p k
          ],
      rw state (unfold put_operation in Added-next added),
    )

-- After a step no record was created later than its time, and at most one sequence is taken.
module _ ⦃cids : CidCodec⦄ where
  pub Step-Advanced :
      (now : ℕ) (s t : State) → Step now s t → Inv s → CreatedBy now s → Advanced now s t
  unfolding freeze_batch_locked conflict_batch_locked complete_batch_locked
  Step-Advanced now s t (Step.append raw intent initial o n i h) v c =
      Appended-Advanced now intent initial s t o
        (append-Appended now intent initial s o t (initial-ne-superseded initial i) h) c
  Step-Advanced now s t (Step.freeze id o h) v c = moved-Advanced now s t id _ _ _ o h c
  Step-Advanced now s t (Step.go_offline id o h) v c = moved-Advanced now s t id _ _ _ o h c
  Step-Advanced now s t (Step.conflict id raw k o q h) v c = moved-Advanced now s t id _ _ _ o h c
  Step-Advanced now s t (Step.complete id raw root o q h) v c =
      moved-Advanced now s t id _ _ _ o h c
  Step-Advanced now s t (Step.freeze_batch ids os h) v c =
      rewritten-Advanced now s t _ (batch-Rewrites _ _ _ (freeze-IsSettling now) ids s v os t h) c
  Step-Advanced now s t (Step.conflict_batch ids raw k os q h) v c =
      rewritten-Advanced now s t _ (batch-Rewrites _ _ _ (conflict-IsSettling now k) ids s v os t h)
        c
  Step-Advanced now s t (Step.complete_batch ids raw root os q h) v c =
      rewritten-Advanced now s t _
        (batch-Rewrites _ _ _ (completion-IsSettling now root) ids s v os t h) c
  Step-Advanced now s t (Step.resolve id raw intent initial o p n i h) v c =
      resolved-Advanced now id intent initial s t o p
        (resolve-Resolved now id intent initial s o p t (initial-ne-superseded initial i) h) c
  Step-Advanced now s t (Step.prune e) v c = (
    λ j p h. c j p (prune-left s v j p (subst (λ x. lookup j x.operations ≡ some p) e h)).0,
    unfold prune_locked in omega (arith, ap (λ x. x.next_sequence) e),
  )
