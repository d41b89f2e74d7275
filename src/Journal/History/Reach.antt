-- ===== src/Journal/History/Reach.antt =====
-- What any number of operations on the journal keep.
use malt.Base.{
  ℕ, ◌≡◌, ◌≢◌, ◌∙◌, ap, sym, inl, inr, true, none, some, Text, lookup, present, ok, arith,
  Option-cases,
}
use malt.Base.Cids.{CidCodec}
use malt.Journal.Types.{Status, Intent, Operation, State}
use malt.Journal.Store.Locked.{append_locked, new_operation}
use malt.Journal.Invariant.{Inv}
use malt.Journal.Invariant.Appends.{HasRoom, append-Appended, Added-here}
use malt.Journal.History.Steps.{Step, Step-Inv, Step-Progress}

module _ ⦃cids : CidCodec⦄ where
  -- Any number of steps, while the counter has room.
  pub data Reach (s : State) : State → Type 0 where
    start : Reach s s
    next : {m u : State} → Reach s m → (now : ℕ) → Step now m u → HasRoom m → Reach s u

  -- Every reachable state is well-formed.
  pub Reach-Inv : (s t : State) → Reach s t → Inv s → Inv t
  Reach-Inv s t start v = v
  Reach-Inv s t (next {m} r now step room) v = Step-Inv step (Reach-Inv s m r v) room

  Reach-used :
      (s t : State) (id : Text)
      → Reach s t
      → Inv s
      → present (lookup id s.used_operation_ids) ≡ true
      → present (lookup id t.used_operation_ids) ≡ true
  Reach-used s t id start v h = h
  Reach-used s t id (next {m} r now step room) v h =
      (Step-Progress step (Reach-Inv s m r v)).keeps_ids id (Reach-used s m id r v h)

  -- In a well-formed state, an identity that was used and has no record, since the record was
  -- pruned, has no record after any number of further operations.
  pub Reach-retired :
      (s t : State) (id : Text)
      → Reach s t
      → Inv s
      → present (lookup id s.used_operation_ids) ≡ true
      → lookup id s.operations ≡ none
      → lookup id t.operations ≡ none
  Reach-retired s t id start v used gone = gone
  Reach-retired s t id (next {m} r now step room) v used gone =
      elim (Option-cases (lookup id t.operations)) [
        | inl absent ↦ absent
        | inr (p, there) ↦
            let before = Reach-retired s m id r v used gone in
            let (unused, _) = (Step-Progress step (Reach-Inv s m r v)).fresh id p before there in
            absurd (cc (unused, Reach-used s m id r v used))
      ]

  -- A record that is still there after any number of operations has the intent, the sequence and
  -- the time of creation that it had in the well-formed state before them.
  pub Reach-immutable :
      (s t : State) (id : Text) (o p : Operation)
      → Reach s t
      → Inv s
      → lookup id s.operations ≡ some o
      → lookup id t.operations ≡ some p
      → (p.intent ≡ o.intent) × (p.sequence ≡ o.sequence) × (p.created_at ≡ o.created_at)
  Reach-immutable s t id o p start v h k = (ground arith, ground arith, ground arith)
  Reach-immutable s t id o p (next {m} r now step room) v h k =
      let progress = Step-Progress step (Reach-Inv s m r v) in
      elim (Option-cases (lookup id m.operations)) [
        | inl absent ↦
            let (unused, _) = progress.fresh id p absent k in
            absurd (cc (unused, Reach-used s m id r v (v.used id o h).0))
        | inr (q, there) ↦
            let e = progress.evolves id q p there k in
            let (intent, sequence, created) = Reach-immutable s m id o q r v h there in
            (e.intent ∙ intent, e.sequence ∙ sequence, e.created ∙ created)
      ]

append-found :
    (now : ℕ) (intent : Intent) (initial : Status) (t : State) (o : Operation)
    → lookup intent.operation_id t.operations ≡ some o
    → o.intent ≡ intent
    → append_locked now intent initial t ≡ ok (o, t)
unfolding append_locked
append-found now intent initial t o there same = ground arith

-- After an append that succeeded with an initial status that is not superseded, appending the
-- same intent again, at any time and with any initial status, returns the same operation and
-- changes nothing.
pub append_locked-again :
    (now now' : ℕ) (intent : Intent) (initial initial' : Status) (s t : State) (o : Operation)
    → initial ≢ Status.superseded
    → append_locked now intent initial s ≡ ok (o, t)
    → append_locked now' intent initial' t ≡ ok (o, t)
append_locked-again now now' intent initial initial' s t o n h =
    elim (append-Appended now intent initial s o t n h) [
      | inl (same, there, e) ↦
          append-found now' intent initial' t o
            (ap (λ x. lookup intent.operation_id x.operations) same ∙ there) e
      | inr (added, made) ↦
          let whole : o.intent ≡ intent = unfold new_operation in ap (λ x. x.intent) made in
          append-found now' intent initial' t o
            (ap (λ i. lookup i.operation_id t.operations) (sym whole) ∙ Added-here added) whole
    ]
