-- ===== src/Journal/Pruning/Removal.antt =====
-- PruneCompleted on the whole state.
use mathlib.Core.Path.{subst}
use malt.Base.{
  ◌+◌, ◌≡◌, ◌∙◌, refl, true, false, inl, inr, none, some, [], ◌∷◌, List, Text, text_eq, ◌==◌,
  ==_iff, ==_refl, if◌then◌else◌, Map, lookup, delete, lookup-delete, Distinct, Distinct-delete,
  length, Bool-cases, arith,
}
use malt.Journal.Types.{Operation, State, status_eq}
use malt.Journal.Normalize.{member}
use malt.Journal.Store.Prune.{delete_all, finished_ids, prune_locked}
use malt.Journal.Pruning.Loop.{Finished, done, gave_way, NoRepeat}
use malt.Journal.Pruning.Selection.{Finished-sound, finished-NoRepeat, Finished-complete}
use malt.Journal.Invariant.{Inv}
use malt.Journal.Invariant.Progress.{Progress, same-Evolves}

lookup-delete_all :
    (ids : List Text) (m : Map Operation) (j : Text)
    → lookup j (delete_all ids m) ≡ (if member j ids then none else lookup j m)
unfolding delete_all member
lookup-delete_all [] m j = refl
lookup-delete_all (id ∷ ids) m j =
    ground (arith, lookup-delete_all ids (delete id m) j, lookup-delete id j m)

Distinct-delete_all :
    (ids : List Text) (m : Map Operation) → Distinct m → Distinct (delete_all ids m)
unfolding delete_all
Distinct-delete_all [] m d = d
Distinct-delete_all (id ∷ ids) m d = Distinct-delete_all ids (delete id m) (Distinct-delete id m d)

delete-absent : (id : Text) (m : Map Operation) → lookup id m ≡ none → delete id m ≡ m
unfolding delete lookup
delete-absent id [] h = refl
delete-absent id ((k, o) ∷ m) h = ground (arith, delete-absent id m)

length-delete :
    (id : Text) (m : Map Operation) (o : Operation)
    → Distinct m
    → lookup id m ≡ some o
    → length (delete id m) + 1 ≡ length m
unfolding delete lookup
length-delete id [] o d h = cc
length-delete id ((k, p) ∷ m) o d h = elim (Bool-cases (k == id)) [
  | inl e ↦
      let gone : lookup id m ≡ none = subst (λ i. lookup i m ≡ none) ((==_iff k id).0 e) d.0 in
      rw (e, delete-absent id m gone) (omega arith)
  | inr e ↦ rw e (omega (arith, length-delete id m o d.1 (ground (arith, e))))
]

-- Every identity of the list has a record.
abbrev Present : List Text → Map Operation → Type 0
Present ids m = (j : Text) → member j ids ≡ true → (o : Operation) × (lookup j m ≡ some o)

still_there :
    (id j : Text) (ids : List Text) (m : Map Operation) (q : Operation)
    → member id ids ≡ false
    → member j ids ≡ true
    → lookup j m ≡ some q
    → (if id == j then none else lookup j m) ≡ some q
still_there id j ids m q n h there = elim (Bool-cases (id == j)) [
  | inl e ↦
      let n' : member j ids ≡ false = subst (λ i. member i ids ≡ false) ((==_iff id j).0 e) n in
      absurd (cc)
  | inr e ↦ rw e there
]

length-delete_all :
    (ids : List Text) (m : Map Operation)
    → Distinct m
    → NoRepeat ids
    → Present ids m
    → length ids + length (delete_all ids m) ≡ length m
unfolding delete_all member
length-delete_all [] m d n p = omega arith
length-delete_all (id ∷ ids) m d n p =
    let (o, here) = p id (ground (arith, ==_refl id)) in
    let rest = length-delete_all ids (delete id m) (Distinct-delete id m d) n.1 λ j h.
      let (q, there) = p j (ground (arith, h)) in
      (q, lookup-delete id j m ∙ still_there id j ids m q n.0 h there) in
    omega (arith, rest, length-delete id m o d here)

Finished-present :
    (m : Map Operation) (id : Text) → Finished m id → (o : Operation) × (lookup id m ≡ some o)
Finished-present m id (done o h _) = (o, h)
Finished-present m id (gave_way o h _ _) = (o, h)

module _ (s : State) (v : Inv s) where
  -- The count that pruning a well-formed journal returns is the number of records that went.
  pub prune-count : (prune_locked s).0 + length (prune_locked s).1.operations ≡ length s.operations
  unfolding prune_locked
  prune-count =
      length-delete_all (finished_ids s.operations) s.operations v.distinct
        (finished-NoRepeat s.operations v.distinct)
        λ j h. Finished-present s.operations j (Finished-sound s.operations v.distinct j h)

  -- Pruning a well-formed journal removes every record that is completed or superseded, over any
  -- number of replacements, by a completed one: the loop's fuel is enough.
  pub prune-Finished :
      (id : Text) → Finished s.operations id → lookup id (prune_locked s).1.operations ≡ none
  unfolding prune_locked
  prune-Finished id f = ground (
    arith,
    lookup-delete_all (finished_ids s.operations) s.operations id,
    Finished-complete s.operations v.distinct id f,
  )

  -- Pruning a well-formed journal leaves every record as it was that is neither completed nor
  -- superseded by a finished one.
  pub prune-unfinished :
      (id : Text)
      → ¬ Finished s.operations id
      → lookup id (prune_locked s).1.operations ≡ lookup id s.operations
  unfolding prune_locked
  prune-unfinished id f = elim (Bool-cases (member id (finished_ids s.operations))) [
    | inl e ↦ absurd (f (Finished-sound s.operations v.distinct id e))
    | inr e ↦ lookup-delete_all (finished_ids s.operations) s.operations id ∙ rw e
  ]

  -- A record that is left was there, and is not finished.
  pub prune-left :
      (id : Text) (o : Operation)
      → lookup id (prune_locked s).1.operations ≡ some o
      → (lookup id s.operations ≡ some o) × ¬ Finished s.operations id
  unfolding prune_locked
  prune-left id o h =
      let all = lookup-delete_all (finished_ids s.operations) s.operations id in
      (ground (arith, all), λ f. cc (prune-Finished id f))

  pub prune-Inv : Inv (prune_locked s).1
  prune-Inv = record {
    distinct =
        unfold prune_locked in
        Distinct-delete_all (finished_ids s.operations) s.operations v.distinct;
    positive = unfold prune_locked in v.positive;
    keyed = λ j p h. v.keyed j p (prune-left j p h).0;
    bounded = λ j p h. unfold prune_locked in v.bounded j p (prune-left j p h).0;
    used = λ j p h. unfold prune_locked in v.used j p (prune-left j p h).0;
    sequences_differ =
        λ i j o p h k. v.sequences_differ i j o p (prune-left i o h).0 (prune-left j p k).0;
    retries_differ =
        λ i j o p h k. v.retries_differ i j o p (prune-left i o h).0 (prune-left j p k).0;
    replaced = λ j p h e.
        let (there, alive) = prune-left j p h in
        let (r, at, later, dataset, branch) = v.replaced j p there e in
        let kept =
          prune-unfinished p.replacement_operation_id (λ f. alive (gave_way p there e f)) in
        (r, kept ∙ at, later, dataset, branch);
    replacements_differ =
        λ i j o p h k. v.replacements_differ i j o p (prune-left i o h).0 (prune-left j p k).0;
  }

  pub prune-Progress : Progress s (prune_locked s).1
  prune-Progress = record {
    evolves = λ j o p h k. same-Evolves (lookup j s.operations) o p h (prune-left j p k).0;
    keeps_ids = λ j h. unfold prune_locked in h;
    keeps_retries = λ j h. unfold prune_locked in h;
    fresh = λ j p h k. absurd (cc (prune-left j p k).0);
  }
