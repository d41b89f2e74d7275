-- ===== src/Merge/Places.antt =====
-- The directories above a path in application/backup/merge.go, and the check that a selected node
-- stands under directories.
use mathlib.Core.Path.{subst}
use mathlib.Core.List.{append_assoc}
use malt.Base.{
  ◌≡◌, refl, sym, ap, ◌∙◌, inl, inr, ==_refl, ℕ, false, Option, none, some, List, [], ◌∷◌, ◌++◌,
  Text, text, text_eq, nat_eq, ◌==◌, ==_iff, Bool-cases, Map, lookup, Distinct, split, join,
  extend_first, slash, All, arith,
}
use malt.Merge.Trees.{TreeNode, is_directory, parents, all_directories, misplaced}

extend_first-join :
    (r c : ℕ) (segments : List Text) → join r (extend_first c segments) ≡ c ∷ join r segments
unfolding extend_first join
extend_first-join r c [] = refl
extend_first-join r c (s ∷ []) = refl
extend_first-join r c (s ∷ t ∷ rest) = refl

extended_split : (r c : ℕ) (p : Text) → join r ([] ∷ split r p) ≡ r ∷ join r (split r p)
unfolding split extend_first join
extended_split r c [] = refl
extended_split r c (d ∷ p) = elim (Bool-cases (d == r)) [
  | inl e ↦ rw e refl
  | inr e ↦ rw e (first (split r p))
]
  where
    first : (ss : List Text) → join r ([] ∷ extend_first d ss) ≡ r ∷ join r (extend_first d ss)
    first [] = refl
    first (s ∷ ss) = refl

-- Splitting a text and joining its parts gives the text.
join-split : (r : ℕ) (p : Text) → join r (split r p) ≡ p
unfolding split join
join-split r [] = refl
join-split r (c ∷ p) = elim (Bool-cases (c == r)) [
  | inl e ↦
      let same : c ≡ r = (==_iff c r).0 e in
      rw e (extended_split r c p ∙ (ap (λ x. r ∷ x) (join-split r p) ∙ ap (λ x. x ∷ p) (sym same)))
  | inr e ↦ rw e (extend_first-join r c (split r p) ∙ ap (λ x. c ∷ x) (join-split r p))
]

join-append :
    (r : ℕ) (above : List Text) (s t : Text) (rest : List Text)
    → join r (above ++ (s ∷ t ∷ rest)) ≡ join r (above ++ (s ∷ [])) ++ (r ∷ join r (t ∷ rest))
unfolding join
join-append r [] s t rest = refl
join-append r (a ∷ []) s t rest = simp append_assoc
join-append r (a ∷ b ∷ above) s t rest =
    ap (λ x. a ++ (r ∷ x)) (join-append r (b ∷ above) s t rest)
    ∙ sym (append_assoc a (r ∷ join r (b ∷ above ++ (s ∷ []))) (r ∷ join r (t ∷ rest)))

-- A path above another one.
abbrev pub IsAbove : Text → Text → Type 0
IsAbove above path = (below : Text) × (path ≡ above ++ (slash ∷ below))

parents-IsAbove :
    (above segments : List Text)
    → All (λ p. IsAbove p (join slash (above ++ segments))) (parents above segments)
unfolding parents
parents-IsAbove above [] = tt
parents-IsAbove above (last ∷ []) = tt
parents-IsAbove above (s ∷ t ∷ rest) = (
  (join slash (t ∷ rest), join-append slash above s t rest),
  subst (λ x. All (λ p. IsAbove p (join slash x)) (parents (above ++ (s ∷ [])) (t ∷ rest)))
      (append_assoc above (s ∷ []) (t ∷ rest)) (parents-IsAbove (above ++ (s ∷ [])) (t ∷ rest)),
)

-- A tree in which the path has a node, and what is above it is no directory.
pub record IsMisplaced (tree : Map (Option TreeNode)) (path : Text) : Type 0 where
  pub node : TreeNode
  pub there : lookup path tree ≡ some (some node)
  pub above : Text
  pub is_above : IsAbove above path
  pub no_directory : (n : TreeNode) → lookup above tree ≡ some (some n) → ¬ (n.kind ≡ text "dir")

no_directory-of :
    (tree : Map (Option TreeNode)) (above : Text)
    → is_directory (lookup above tree) ≡ false
    → (n : TreeNode) → lookup above tree ≡ some (some n)
    → ¬ (n.kind ≡ text "dir")
unfolding is_directory
no_directory-of tree above e n f d = let k = rw f at e in ground (arith, k, d)

all_directories-Any :
    (tree : Map (Option TreeNode)) (P : Text → Type 0) (paths : List Text)
    → All P paths
    → all_directories tree paths ≡ false
    → (above : Text) × P above × (is_directory (lookup above tree) ≡ false)
unfolding all_directories
all_directories-Any tree P [] all h = absurd (cc (h))
all_directories-Any tree P (p ∷ ps) all h = elim (Bool-cases (is_directory (lookup p tree))) [
  | inr e ↦ (p, all.0, e)
  | inl e ↦ all_directories-Any tree P ps all.1 (rw e at h)
]

-- Every entry of a tree is found in the other one.
abbrev Within : Map (Option TreeNode) → Map (Option TreeNode) → Type 0
Within part tree = All (λ p. lookup p.0 tree ≡ some p.1) part

misplaced-Within :
    (tree part : Map (Option TreeNode)) (path : Text)
    → Within part tree
    → misplaced tree part ≡ some path
    → IsMisplaced tree path
unfolding misplaced
misplaced-Within tree [] path w h = absurd (cc (h))
misplaced-Within tree ((p, none) ∷ rest) path w h = misplaced-Within tree rest path w.1 h
misplaced-Within tree ((p, some node) ∷ rest) path w h =
    elim (Bool-cases (all_directories tree (parents [] (split slash p)))) [
      | inl e ↦ misplaced-Within tree rest path w.1 (rw e at h)
      | inr e ↦
          let k = rw e at h in
          let same : p ≡ path = cc (k) in
          let (above, is_above, undirected) =
            all_directories-Any tree (λ a. IsAbove a p) (parents [] (split slash p))
              (subst (λ x. All (λ a. IsAbove a x) (parents [] (split slash p))) (join-split slash p)
                (parents-IsAbove [] (split slash p)))
              e in
          subst (IsMisplaced tree) same (record {
            node = node;
            there = w.0;
            above = above;
            is_above = is_above;
            no_directory = no_directory-of tree above undirected;
          })
    ]

Within-more :
    (path : Text) (chosen : Option TreeNode) (part tree : Map (Option TreeNode))
    → lookup path part ≡ none
    → Within part tree
    → Within part ((path, chosen) ∷ tree)
unfolding lookup
Within-more path chosen [] tree gone w = tt
Within-more path chosen ((p, v) ∷ rest) tree gone w = (
  elim (Bool-cases (path == p)) [
    | inl e ↦
        let same : path ≡ p = (==_iff path p).0 e in absurd (ground (arith, gone, same, ==_refl p))
    | inr e ↦ rw e (w.0)
  ],
  Within-more path chosen rest tree (ground (arith, gone)) w.1,
)

Within-self : (tree : Map (Option TreeNode)) → Distinct tree → Within tree tree
unfolding lookup
Within-self [] d = tt
Within-self ((p, v) ∷ rest) d =
    (rw (==_refl p) refl, Within-more p v rest rest d.0 (Within-self rest d.1))

-- The path that the check reports has a node, and above it there is no directory.
pub misplaced-IsMisplaced :
    (tree : Map (Option TreeNode)) (path : Text)
    → Distinct tree
    → misplaced tree tree ≡ some path
    → IsMisplaced tree path
misplaced-IsMisplaced tree path d h = misplaced-Within tree tree path (Within-self tree d) h
