-- ===== src/Journal/Pruning/Selection.antt =====
-- The selection that the loop ends with: the finished records and no others.
use mathlib.Core.Path.{subst}
use malt.Base.{
  suc, ◌+◌, ◌≤◌, ◌≡◌, refl, true, false, inl, inr, none, some, [], ◌∷◌, List, Text, text_eq,
  Text-discrete, ◌==◌, ==_iff, ==_refl, Map, lookup, Distinct, length, Bool-cases, All, arith,
}
use malt.Journal.Types.{Status, Operation, status_eq}
use malt.Journal.Normalize.{member}
use malt.Journal.Store.Prune.{completed_ids, joins, finished_ids}
use malt.Journal.Pruning.Loop.{
  Finished, done, gave_way, Within, Within-self, NoRepeat, IsSelection, unselected,
  unselected_elsewhere, Settled, loop-Settled, loop-member, All-member,
}

completed-absent :
    (id : Text) (m : Map Operation) → lookup id m ≡ none → member id (completed_ids m) ≡ false
unfolding completed_ids member lookup
completed-absent id [] h = refl
completed-absent id ((k, o) ∷ m) h = ground (arith, completed-absent id m, ==_iff k id)

completed_sound : (m part : Map Operation) → Within m part → All (Finished m) (completed_ids part)
unfolding completed_ids
completed_sound m [] w = tt
completed_sound m ((id, o) ∷ part) w = elim (Bool-cases (o.status == Status.completed)) [
  | inl e ↦ rw e (done o w.0 ((==_iff o.status Status.completed).0 e), completed_sound m part w.1)
  | inr e ↦ rw e (completed_sound m part w.1)
]

completed-NoRepeat : (m : Map Operation) → Distinct m → NoRepeat (completed_ids m)
unfolding completed_ids
completed-NoRepeat [] d = tt
completed-NoRepeat ((id, o) ∷ m) d = elim (Bool-cases (o.status == Status.completed)) [
  | inl e ↦ rw e (completed-absent id m d.0, completed-NoRepeat m d.1)
  | inr e ↦ rw e (completed-NoRepeat m d.1)
]

completed-within :
    (m : Map Operation)
    → Distinct m
    → length (completed_ids m) + unselected m (completed_ids m) ≤ length m
unfolding completed_ids unselected member
completed-within [] d = omega arith
completed-within ((id, o) ∷ m) d =
    ground
      (arith, completed-within m d.1, unselected_elsewhere id m (completed_ids m) d.0, ==_refl id)

completed-member :
    (m : Map Operation) (id : Text) (o : Operation)
    → lookup id m ≡ some o
    → o.status ≡ Status.completed
    → member id (completed_ids m) ≡ true
unfolding completed_ids member lookup
completed-member [] id o h e = cc
completed-member ((k, p) ∷ m) id o h e = ground (arith, completed-member m id o, ==_refl id)

-- Nothing that could join is left out.
Settled-at :
    (ids : List Text) (m : Map Operation) (id : Text) (o : Operation)
    → Settled ids m
    → lookup id m ≡ some o
    → joins ids id o ≡ false
unfolding lookup
Settled-at ids [] id o c h = cc
Settled-at ids ((k, p) ∷ m) id o c h = elim (Text-discrete k id) [
  | yes e ↦
      let same : p ≡ o = ground arith in
      subst (λ q. joins ids id q ≡ false) same (subst (λ i. joins ids i p ≡ false) e c.0)
  | no e ↦ Settled-at ids m id o c.1 (ground arith)
]

module _ (m : Map Operation) (d : Distinct m) where
  finished-IsSelection : IsSelection m (finished_ids m) × Settled (finished_ids m) m
  unfolding finished_ids
  finished-IsSelection = loop-Settled m d (suc (length m)) (completed_ids m) (omega arith) (record {
    sound = completed_sound m m (Within-self m d);
    no_repeat = completed-NoRepeat m d;
    within = completed-within m d;
  })

  pub Finished-sound : (id : Text) → member id (finished_ids m) ≡ true → Finished m id
  Finished-sound id h = All-member (Finished m) (finished_ids m) id (finished-IsSelection.0).sound h

  pub finished-NoRepeat : NoRepeat (finished_ids m)
  finished-NoRepeat = (finished-IsSelection.0).no_repeat

  finished-completed :
      (id : Text) (o : Operation)
      → lookup id m ≡ some o
      → o.status ≡ Status.completed
      → member id (finished_ids m) ≡ true
  unfolding finished_ids
  finished-completed id o h e =
      loop-member (suc (length m)) m (completed_ids m) id (completed-member m id o h e)

  pub Finished-complete : (id : Text) → Finished m id → member id (finished_ids m) ≡ true
  unfolding joins
  Finished-complete id (done o h e) = finished-completed id o h e
  Finished-complete id (gave_way o h e f) =
      let later = Finished-complete o.replacement_operation_id f in
      let closed = Settled-at (finished_ids m) m id o finished-IsSelection.1 h in ground arith
