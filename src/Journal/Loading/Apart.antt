-- ===== src/Journal/Loading/Apart.antt =====
-- Records of a map that a relation tells apart.
use mathlib.Core.Path.{subst}
use malt.Base.{
  ◌≡◌, ◌⊎◌, sym, ◌∙◌, inl, inr, some, [], ◌∷◌, Text, Text-discrete, text_eq, Map, lookup, arith,
}
use malt.Journal.Types.{Operation}

-- The first of two records is never related to a later one, in either order.
abbrev pub Apart : (Operation → Operation → Type 0) → Map Operation → Type 0
Apart R [] = Unit {0}
Apart R ((id, o) ∷ m) =
    ((j : Text) (p : Operation) → lookup j m ≡ some p → (¬ R o p) × (¬ R p o)) × Apart R m

head_or_rest :
    (k j : Text) (o p : Operation) (m : Map Operation)
    → lookup j ((k, o) ∷ m) ≡ some p
    → ((k ≡ j) × (o ≡ p)) ⊎ (lookup j m ≡ some p)
unfolding lookup
head_or_rest k j o p m h = elim (Text-discrete k j) [
  | yes e ↦ inl (e, ground arith)
  | no e ↦ inr (ground arith)
]

pub Apart-same :
    (R : Operation → Operation → Type 0) (m : Map Operation)
    → Apart R m
    → (i j : Text) (o p : Operation) → lookup i m ≡ some o
    → lookup j m ≡ some p
    → R o p
    → i ≡ j
unfolding lookup
Apart-same R [] a i j o p h k r = absurd (cc)
Apart-same R ((id, q) ∷ m) a i j o p h k r = elim (head_or_rest id i q o m h) [
  | inl (e, same) ↦ elim (head_or_rest id j q p m k) [
    | inl (e', _) ↦ sym e ∙ e'
    | inr k' ↦ absurd ((a.0 j p k').0 (subst (λ x. R x p) (sym same) r))
  ]
  | inr h' ↦ elim (head_or_rest id j q p m k) [
    | inl (_, same) ↦ absurd ((a.0 i o h').1 (subst (λ x. R o x) (sym same) r))
    | inr k' ↦ Apart-same R m a.1 i j o p h' k' r
  ]
]
