-- ===== src/Journal/Pruning/Loop.antt =====
-- The loop that selects the finished records: what it selects is sound, closed and without repetition.
use mathlib.Core.Path.{subst}
use malt.Base.{
  ℕ, zero, suc, ◌+◌, ◌≤◌, ◌<◌, ◌≡◌, sym, inl, inr, refl, true, false, none, some, List, [], ◌∷◌,
  Text, Text-discrete, text_eq, nat_eq, ◌==◌, ==_iff, ==_refl, if◌then◌else◌, Map, lookup, Distinct,
  length, Bool-cases, arith, All,
}
use malt.Journal.Types.{Status, Operation, status_eq}
use malt.Journal.Normalize.{member}
use malt.Journal.Store.Prune.{joins, prune_pass, prune_loop}

-- Completed, or superseded by a finished record.
pub data Finished (m : Map Operation) : Text → Type 0 where
  done :
      {id : Text} (o : Operation)
      → lookup id m ≡ some o
      → o.status ≡ Status.completed
      → Finished m id
  gave_way :
      {id : Text} (o : Operation)
      → lookup id m ≡ some o
      → o.status ≡ Status.superseded
      → Finished m o.replacement_operation_id
      → Finished m id

-- Every entry of `part` is one of `m`.
abbrev pub Within : Map Operation → Map Operation → Type 0
Within m [] = Unit {0}
Within m ((id, o) ∷ rest) = (lookup id m ≡ some o) × Within m rest

Within-cons :
    (k : Text) (v : Operation) (m part : Map Operation)
    → lookup k m ≡ none
    → Within m part
    → Within ((k, v) ∷ m) part
unfolding lookup
Within-cons k v m [] h w = tt
Within-cons k v m ((id, o) ∷ rest) h w = (ground (arith, h, w.0), Within-cons k v m rest h w.1)

pub Within-self : (m : Map Operation) → Distinct m → Within m m
unfolding lookup
Within-self [] d = tt
Within-self ((k, v) ∷ m) d =
    (ground (arith, ==_refl k), Within-cons k v m m d.0 (Within-self m d.1))

-- No text stands twice.
abbrev pub NoRepeat : List Text → Type 0
NoRepeat [] = Unit {0}
NoRepeat (id ∷ ids) = (member id ids ≡ false) × NoRepeat ids

-- How many records are not selected.
unfoldable pub unselected : Map Operation → List Text → ℕ
unselected [] ids = 0
unselected ((id, o) ∷ rest) ids =
    let others = unselected rest ids in if member id ids then others else suc others

pub unselected_elsewhere :
    (id : Text) (m : Map Operation) (ids : List Text)
    → lookup id m ≡ none
    → unselected m (id ∷ ids) ≡ unselected m ids
unfolding unselected lookup member
unselected_elsewhere id [] ids h = refl
unselected_elsewhere id ((k, o) ∷ m) ids h =
    ground (arith, unselected_elsewhere id m ids, ==_iff id k, ==_iff k id)

unselected_here :
    (id : Text) (o : Operation) (m : Map Operation) (ids : List Text)
    → Distinct m
    → lookup id m ≡ some o
    → member id ids ≡ false
    → unselected m (id ∷ ids) + 1 ≡ unselected m ids
unfolding unselected lookup member
unselected_here id o [] ids d h n = cc
unselected_here id o ((k, p) ∷ m) ids d h n = elim (Text-discrete k id) [
  | yes e ↦
      let gone : lookup id m ≡ none = subst (λ i. lookup i m ≡ none) e d.0 in
      let fresh : member k ids ≡ false = subst (λ i. member i ids ≡ false) (sym e) n in
      ground (arith, unselected_elsewhere id m ids gone, ==_iff id k, fresh, e)
  | no e ↦ ground (arith, unselected_here id o m ids d.1, ==_iff id k, e)
]

pub All-member {ℓ} :
    (P : Text → Type ℓ) (ids : List Text) (j : Text) → All P ids → member j ids ≡ true → P j
unfolding member
All-member P [] j a h = absurd (cc)
All-member P (id ∷ ids) j a h = elim (Text-discrete id j) [
  | yes e ↦ subst P e a.0
  | no e ↦ All-member P ids j a.1 (ground arith)
]

-- What holds of the selection at every turn of the loop.
pub record IsSelection (m : Map Operation) (ids : List Text) : Type 0 where
  pub sound : All (Finished m) ids
  pub no_repeat : NoRepeat ids
  pub within : length ids + unselected m ids ≤ length m

module _ (m : Map Operation) (d : Distinct m) where
  joins-Finished :
      (ids : List Text) (id : Text) (o : Operation)
      → All (Finished m) ids
      → lookup id m ≡ some o
      → joins ids id o ≡ true
      → Finished m id
  unfolding joins
  joins-Finished ids id o a h j =
      gave_way o h (ground arith)
        (All-member (Finished m) ids o.replacement_operation_id a (ground arith))

  joins-new :
      (ids : List Text) (id : Text) (o : Operation) → joins ids id o ≡ true → member id ids ≡ false
  unfolding joins
  joins-new ids id o j = ground arith

  joins-IsSelection :
      (ids : List Text) (id : Text) (o : Operation)
      → lookup id m ≡ some o
      → IsSelection m ids
      → joins ids id o ≡ true
      → IsSelection m (id ∷ ids)
  joins-IsSelection ids id o h v j =
      let new = joins-new ids id o j in
      record {
        sound = (joins-Finished ids id o v.sound h j, v.sound);
        no_repeat = (new, v.no_repeat);
        within = omega (arith, v.within, unselected_here id o m ids d h new);
      }

  pass-IsSelection :
      (part : Map Operation) (ids : List Text)
      → Within m part
      → IsSelection m ids
      → IsSelection m (prune_pass part ids)
  unfolding prune_pass
  pass-IsSelection [] ids w v = v
  pass-IsSelection ((id, o) ∷ part) ids w v = elim (Bool-cases (joins ids id o)) [
    | inl e ↦ rw e (pass-IsSelection part (id ∷ ids) w.1 (joins-IsSelection ids id o w.0 v e))
    | inr e ↦ rw e (pass-IsSelection part ids w.1 v)
  ]

-- The entries of a map that have nothing left to join.
abbrev pub Settled : List Text → Map Operation → Type 0
Settled ids [] = Unit {0}
Settled ids ((id, o) ∷ part) = (joins ids id o ≡ false) × Settled ids part

pass-length : (part : Map Operation) (ids : List Text) → length ids ≤ length (prune_pass part ids)
unfolding prune_pass
pass-length [] ids = omega arith
pass-length ((id, o) ∷ part) ids = ground (arith, pass-length part (id ∷ ids), pass-length part ids)

pass-member :
    (part : Map Operation) (ids : List Text) (j : Text)
    → member j ids ≡ true
    → member j (prune_pass part ids) ≡ true
unfolding prune_pass member
pass-member [] ids j h = h
pass-member ((id, o) ∷ part) ids j h = elim (Bool-cases (joins ids id o)) [
  | inl e ↦ rw e (pass-member part (id ∷ ids) j (ground arith))
  | inr e ↦ rw e (pass-member part ids j h)
]

pass-Settled :
    (part : Map Operation) (ids : List Text)
    → length (prune_pass part ids) ≡ length ids
    → Settled ids part
unfolding prune_pass
pass-Settled [] ids h = tt
pass-Settled ((id, o) ∷ part) ids h = elim (Bool-cases (joins ids id o)) [
  | inl e ↦ absurd (ground (arith, e, pass-length part (id ∷ ids)))
  | inr e ↦ (e, pass-Settled part ids (ground (arith, e)))
]

-- With enough fuel the loop ends in a sound selection that no record can join.
pub loop-Settled :
    (m : Map Operation) (d : Distinct m) (fuel : ℕ) (ids : List Text)
    → length m < fuel + length ids
    → IsSelection m ids
    → IsSelection m (prune_loop fuel m ids) × Settled (prune_loop fuel m ids) m
unfolding prune_loop
loop-Settled m d zero ids h v = absurd (omega (arith, v.within))
loop-Settled m d (suc fuel) ids h v = elim (Bool-cases (length (prune_pass m ids) == length ids)) [
  | inl e ↦ rw e (v, pass-Settled m ids ((==_iff (length (prune_pass m ids)) (length ids)).0 e))
  | inr e ↦ rw e (
      loop-Settled m d fuel (prune_pass m ids) (ground (arith, e, pass-length m ids))
        (pass-IsSelection m d m ids (Within-self m d) v))
]

pub loop-member :
    (fuel : ℕ) (m : Map Operation) (ids : List Text) (j : Text)
    → member j ids ≡ true
    → member j (prune_loop fuel m ids) ≡ true
unfolding prune_loop
loop-member zero m ids j h = h
loop-member (suc fuel) m ids j h =
    ground (arith, pass-member m ids j, loop-member fuel m (prune_pass m ids) j)
