-- ===== src/Merge/Choices.antt =====
-- What a merge of application/backup/merge.go makes of the changes of both sides.
use mathlib.Core.Path.{subst}
use malt.Base.{
  ◌≡◌, ◌≢◌, ◌↔◌, refl, sym, ap, ◌∙◌, ◌⊎◌, inl, inr, ℕ, arith, true, false, Option, none, some, List,
  [], ◌∷◌, Text, text_eq, nat_eq, ◌==◌, ==_iff, Bool-cases, Option-cases, Map, lookup,
  lookup-insert, Distinct, Distinct-insert, ok, err, All, All-sort, sort, text_ltb,
}
use malt.Merge.Trees.{
  TreeNode, Tree, perm, same_tree_node, add_paths, all_paths, choose, Selection, select_path,
  select_all, misplaced, merge_trees,
}
use malt.Merge.Places.{IsMisplaced, misplaced-IsMisplaced}

-- What two nodes have in common when they are the same.
abbrev pub content : Option TreeNode → Option (Text × ℕ × Text × Text)
content none = none
content (some node) = some (node.kind, perm node, node.digest, node.link)

same_content : (a b : Option TreeNode) → same_tree_node a b ≡ true → content a ≡ content b
unfolding same_tree_node
same_content none none s = refl
same_content none (some b) s = absurd cc
same_content (some a) none s = absurd cc
same_content (some a) (some b) s = ground arith

content_same : (a b : Option TreeNode) → content a ≡ content b → same_tree_node a b ≡ true
unfolding same_tree_node
content_same none none s = refl
content_same none (some b) s = absurd cc
content_same (some a) none s = absurd cc
content_same (some a) (some b) s = ground arith

-- A merged node has a change of either side, and is the base where neither side changed.
pub record IsMerged (base local remote node : Option TreeNode) : Type 0 where
  pub keeps_local : content local ≢ content base → content node ≡ content local
  pub keeps_remote : content remote ≢ content base → content node ≡ content remote
  pub keeps_base :
      content local ≡ content base → content remote ≡ content base → content node ≡ content base

choose-IsMerged :
    (base local remote node : Option TreeNode)
    → choose base local remote ≡ some node
    → IsMerged base local remote node
unfolding choose
choose-IsMerged base local remote node h = elim (Bool-cases (same_tree_node local remote)) [
  | inl s ↦
      let chosen : local ≡ node = cc (rw (choose, s) at h) in
      let both : content local ≡ content remote = same_content local remote s in
      subst (IsMerged base local remote) chosen
        (record { keeps_local = λ n. refl; keeps_remote = λ n. both; keeps_base = λ l r. l })
  | inr s ↦ elim (Bool-cases (same_tree_node local base)) [
    | inl t ↦
        let chosen : remote ≡ node = cc (rw (choose, s, t) at h) in
        subst (IsMerged base local remote) chosen (record {
          keeps_local = λ n. absurd (n (same_content local base t));
          keeps_remote = λ n. refl;
          keeps_base = λ l r. r;
        })
    | inr t ↦ elim (Bool-cases (same_tree_node remote base)) [
      | inr u ↦ absurd (cc (rw (choose, s, t, u) at h))
      | inl u ↦
          let chosen : local ≡ node = cc (rw (choose, s, t, u) at h) in
          subst (IsMerged base local remote) chosen (record {
            keeps_local = λ n. refl;
            keeps_remote = λ n. absurd (n (same_content remote base u));
            keeps_base = λ l r. l;
          })
    ]
  ]
]

different : (a b : Option TreeNode) → content a ≢ content b → same_tree_node a b ≡ false
different a b n = elim (Bool-cases (same_tree_node a b)) [
  | inl s ↦ absurd (n (same_content a b s))
  | inr s ↦ s
]

-- A conflict is a path that the two sides changed in different ways.
pub record IsConflict (base local remote : Option TreeNode) : Type 0 where
  pub local_changed : content local ≢ content base
  pub remote_changed : content remote ≢ content base
  pub apart : content local ≢ content remote

choose-none :
    (base local remote : Option TreeNode)
    → (choose base local remote ≡ none) ↔ IsConflict base local remote
unfolding choose
choose-none base local remote = (
  λ h. record {
    local_changed = λ e. elim (Bool-cases (same_tree_node local remote)) [
      | inl s ↦ cc (rw (choose, s) at h)
      | inr s ↦ cc (rw (choose, s, content_same local base e) at h)
    ];
    remote_changed = λ e. elim (Bool-cases (same_tree_node local remote)) [
      | inl s ↦ cc (rw (choose, s) at h)
      | inr s ↦ elim (Bool-cases (same_tree_node local base)) [
        | inl t ↦ cc (rw (choose, s, t) at h)
        | inr t ↦ cc (rw (choose, s, t, content_same remote base e) at h)
      ]
    ];
    apart = λ e. cc (rw (choose, content_same local remote e) at h);
  },
  λ i.
      rw
        (
          choose,
          different local remote i.apart,
          different local base i.local_changed,
          different remote base i.remote_changed,
        )
        refl,
)

module _ (base local remote : Tree) where
  abbrev choice : Text → Option (Option TreeNode)
  choice path = choose (lookup path base) (lookup path local) (lookup path remote)

  -- Without a conflict, each path got its choice and no other path has a node.
  selected-choice :
      (paths : Map (Unit {0})) (asked : Text)
      → (select_all base local remote paths).conflicts ≡ []
      → ((lookup asked paths ≡ some tt)
          × ((node : Option TreeNode) × (choice asked ≡ some node)
              × (lookup asked (select_all base local remote paths).selected ≡ some node)))
        ⊎ ((lookup asked paths ≡ none)
            × (lookup asked (select_all base local remote paths).selected ≡ none))
  unfolding select_all select_path lookup
  selected-choice [] asked e = inr (refl, refl)
  selected-choice ((path, u) ∷ paths) asked e = elim (Option-cases (choice path)) [
    | inl c ↦ absurd (cc (rw (select_all, c) at e))
    | inr (node, c) ↦ elim (Bool-cases (path == asked)) [
      | inl s ↦
          let same : path ≡ asked = (==_iff path asked).0 s in
          rw (s, c, select_path, lookup-insert, s)
            (inl (refl, (node, ap choice (sym same) ∙ c, refl)))
      | inr s ↦
          rw (s, c, select_path, lookup-insert, s)
            (selected-choice paths asked (rw (select_all, c, select_path) at e))
    ]
  ]

  -- The paths of a tree, and those that were there before.
  add_paths-lookup :
      (tree : Tree) (paths : Map (Unit {0})) (asked : Text)
      → lookup asked (add_paths tree paths) ≡ none
      → (lookup asked tree ≡ none) × (lookup asked paths ≡ none)
  unfolding add_paths lookup
  add_paths-lookup [] paths asked h = (refl, h)
  add_paths-lookup ((path, node) ∷ rest) paths asked h = elim (Bool-cases (path == asked)) [
    | inl s ↦ absurd (cc (rw (lookup-insert, s) at h))
    | inr s ↦ rw s (add_paths-lookup rest paths asked (rw (lookup-insert, s) at h))
  ]

  -- A node that was not selected counts as none.
  abbrev pub merged_node : Option (Option TreeNode) → Option TreeNode
  merged_node none = none
  merged_node (some node) = node

  selected-IsMerged :
      (asked : Text)
      → (select_all base local remote (all_paths base local remote)).conflicts ≡ []
      → IsMerged (lookup asked base) (lookup asked local) (lookup asked remote) (
          merged_node
            (lookup asked (select_all base local remote (all_paths base local remote)).selected))
  unfolding all_paths
  selected-IsMerged asked e = elim (selected-choice (all_paths base local remote) asked e) [
    | inl (here, (node, c, f)) ↦ rw f (choose-IsMerged _ _ _ node c)
    | inr (gone, f) ↦
        let (r, before) = add_paths-lookup remote _ asked gone in
        let (l, first) = add_paths-lookup local _ asked before in
        let (b, _) = add_paths-lookup base [] asked first in
        rw (f, r, l, b)
          (record { keeps_local = λ n. refl; keeps_remote = λ n. refl; keeps_base = λ x y. refl })
  ]

  abbrev pub IsConflictAt : Text → Type 0
  IsConflictAt path = IsConflict (lookup path base) (lookup path local) (lookup path remote)

  conflicts-IsConflict :
      (paths : Map (Unit {0})) → All IsConflictAt (select_all base local remote paths).conflicts
  unfolding select_all select_path
  conflicts-IsConflict [] = tt
  conflicts-IsConflict ((path, u) ∷ paths) = elim (Option-cases (choice path)) [
    | inl c ↦ rw (c, select_path) ((choose-none _ _ _).0 c, conflicts-IsConflict paths)
    | inr (node, c) ↦ rw (c, select_path) (conflicts-IsConflict paths)
  ]

  abbrev whole : Selection
  whole = select_all base local remote (all_paths base local remote)

  List-cases : (l : List Text) → (l ≡ []) ⊎ ((p : Text) × (ps : List Text) × (l ≡ p ∷ ps))
  List-cases [] = inl refl
  List-cases (p ∷ ps) = inr (p, ps, refl)

  -- In a tree that a three-way merge selects, the node of every path, compared by kind,
  -- permissions, digest and link, is that of the local tree where it differs from the base, that
  -- of the remote tree where it differs from the base, and that of the base where neither
  -- differs; a path without a node counts as one that is not there.
  pub merge_trees-IsMerged :
      (selected : Map (Option TreeNode))
      → merge_trees base local remote ≡ ok selected
      → (asked : Text)
      → IsMerged
          (lookup asked base)
          (lookup asked local)
          (lookup asked remote)
          (merged_node (lookup asked selected))
  unfolding merge_trees
  merge_trees-IsMerged selected h asked = elim (List-cases whole.conflicts) [
    | inr (p, ps, e) ↦ absurd (cc (rw (merge_trees, e) at h))
    | inl e ↦ elim (Option-cases (misplaced whole.selected whole.selected)) [
      | inr (p, m) ↦ absurd (cc (rw (merge_trees, e, m) at h))
      | inl m ↦
          let same : whole.selected ≡ selected = cc (rw (merge_trees, e, m) at h) in
          subst
            (λ s.
              IsMerged (lookup asked base) (lookup asked local) (lookup asked remote)
                (merged_node (lookup asked s)))
            same (selected-IsMerged asked e)
    ]
  ]

  selected-Distinct :
      (paths : Map (Unit {0})) → Distinct (select_all base local remote paths).selected
  unfolding select_all select_path
  selected-Distinct [] = tt
  selected-Distinct ((path, u) ∷ paths) = elim (Option-cases (choice path)) [
    | inl c ↦ rw (c, select_path) (selected-Distinct paths)
    | inr (node, c) ↦
        rw (c, select_path)
          (Distinct-insert path node (select_all base local remote paths).selected
            (selected-Distinct paths))
  ]

  -- Every path that a merge reports is one that the two sides changed in different ways; or it
  -- is the only one reported, and in the tree that has the changes of both sides at every path
  -- there is a node at it, and above it a path that is no directory.
  pub merge_trees-IsConflict :
      (reported : List Text)
      → merge_trees base local remote ≡ err reported
      → All IsConflictAt reported
        ⊎ ((path : Text) × (reported ≡ path ∷ [])
            × (tree : Map (Option TreeNode)) × ((asked : Text)
                → IsMerged
                    (lookup asked base)
                    (lookup asked local)
                    (lookup asked remote)
                    (merged_node (lookup asked tree)))
            × IsMisplaced tree path)
  unfolding merge_trees
  merge_trees-IsConflict reported h = elim (List-cases whole.conflicts) [
    | inr (p, ps, e) ↦
        let same : sort text_ltb (p ∷ ps) ≡ reported = cc (rw (merge_trees, e) at h) in
        inl (
          subst (All IsConflictAt) same (
            All-sort IsConflictAt text_ltb (p ∷ ps)
              (subst (All IsConflictAt) e (conflicts-IsConflict (all_paths base local remote)))))
    | inl e ↦ elim (Option-cases (misplaced whole.selected whole.selected)) [
      | inr (p, m) ↦
          let same : p ∷ [] ≡ reported = cc (rw (merge_trees, e, m) at h) in
          inr (
            p,
            sym same,
            whole.selected,
            λ asked. selected-IsMerged asked e,
            misplaced-IsMisplaced whole.selected p (selected-Distinct (all_paths base local remote))
                m,
          )
      | inl m ↦ absurd (cc (rw (merge_trees, e, m) at h))
    ]
  ]
