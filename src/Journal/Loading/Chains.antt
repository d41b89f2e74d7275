-- ===== src/Journal/Loading/Chains.antt =====
-- The loop of reloadLocked over the superseded operations.
use mathlib.Core.Path.{subst}
use malt.Base.{
  ◌<◌, ◌≡◌, ◌≢◌, ◌⊎◌, inl, inr, true, false, some, [], ◌∷◌, List, Text, Text-discrete, text_eq,
  nat_eq, ◌==◌, ==_iff, ok, Map, lookup, arith, Bool-cases, Option-cases,
}
use malt.Journal.Types.{Status, Operation, status_eq}
use malt.Journal.Normalize.{member}
use malt.Journal.Load.{valid_replacement, load_replacements}
use malt.Journal.Loading.Apart.{Apart}

-- A later record on the same branch of the same dataset is there.
abbrev pub IsReplaced : Map Operation → Operation → Type 0
IsReplaced all o =
    (r : Operation) × (lookup o.replacement_operation_id all ≡ some r)
    × (o.sequence < r.sequence)
    × (r.dataset_id ≡ o.dataset_id)
    × (r.branch ≡ o.branch)

abbrev pub SameReplacement : Operation → Operation → Type 0
SameReplacement o p =
    (o.status ≡ Status.superseded)
    × (p.status ≡ Status.superseded)
    × (o.replacement_operation_id ≡ p.replacement_operation_id)

abbrev pub Chained : Map Operation → List Text → Map Operation → Type 0
Chained all inbound [] = Unit {0}
Chained all inbound ((id, o) ∷ m) =
    ((o.status ≢ Status.superseded) × Chained all inbound m)
    ⊎ ((o.status ≡ Status.superseded)
        × IsReplaced all o
        × (member o.replacement_operation_id inbound ≡ false)
        × Chained all (o.replacement_operation_id ∷ inbound) m)

valid-IsReplaced :
    (all : Map Operation) (o : Operation)
    → valid_replacement o (lookup o.replacement_operation_id all) ≡ true
    → IsReplaced all o
unfolding valid_replacement
valid-IsReplaced all o h = elim (Option-cases (lookup o.replacement_operation_id all)) [
  | inl e ↦ absurd (ground (arith, e))
  | inr (r, e) ↦ (r, e, ground (arith, e), ground (arith, e), ground (arith, e))
]

pub load-Chained :
    (all : Map Operation) (inbound : List Text) (m : Map Operation)
    → load_replacements all inbound m ≡ ok tt
    → Chained all inbound m
unfolding load_replacements
load-Chained all inbound [] h = tt
load-Chained all inbound ((id, o) ∷ m) h = elim (Bool-cases (o.status == Status.superseded)) [
  | inl e ↦ inr (
    (==_iff o.status Status.superseded).0 e,
    valid-IsReplaced all o (ground (arith, e)),
    ground (arith, e),
    load-Chained all (o.replacement_operation_id ∷ inbound) m (ground (arith, e)),
  )
  | inr e ↦ inl (ground (arith, e), load-Chained all inbound m (ground (arith, e)))
]

pub Chained-at :
    (all : Map Operation) (inbound : List Text) (m : Map Operation)
    → Chained all inbound m
    → (j : Text) (p : Operation) → lookup j m ≡ some p
    → p.status ≡ Status.superseded
    → IsReplaced all p × (member p.replacement_operation_id inbound ≡ false)
unfolding lookup member
Chained-at all inbound [] c j p h e = absurd (cc)
Chained-at all inbound ((id, o) ∷ m) (inl (kept, c)) j p h e =
    Chained-at all inbound m c j p (ground arith) e
Chained-at all inbound ((id, o) ∷ m) (inr (gone, there, new, c)) j p h e =
    elim (Text-discrete id j) [
      | yes same ↦
          let one : o ≡ p = ground arith in
          (
            subst (IsReplaced all) one there,
            subst (λ q. member q.replacement_operation_id inbound ≡ false) one new,
          )
      | no other ↦
          let at = Chained-at all (o.replacement_operation_id ∷ inbound) m c j p (ground arith) e in
          (at.0, ground (arith, at.1))
    ]

pub Chained-Apart :
    (all : Map Operation) (inbound : List Text) (m : Map Operation)
    → Chained all inbound m
    → Apart SameReplacement m
unfolding member
Chained-Apart all inbound [] c = tt
Chained-Apart all inbound ((id, o) ∷ m) (inl (kept, c)) =
    (λ j p h. (λ r. kept r.0, λ r. kept r.1), Chained-Apart all inbound m c)
Chained-Apart all inbound ((id, o) ∷ m) (inr (gone, there, new, c)) = (
  λ j p h.
      let at = Chained-at all (o.replacement_operation_id ∷ inbound) m c j p h in
      (λ r. ground (arith, at r.1), λ r. ground (arith, at r.0)),
  Chained-Apart all (o.replacement_operation_id ∷ inbound) m c,
)
