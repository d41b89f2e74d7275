-- ===== src/Merge/Install.antt =====
-- How a merge of application/backup/merge.go writes the tree that it selected.
use mathlib.Core.Path.{subst}
use malt.Base.{
  ◌≡◌, refl, sym, ap, ◌∙◌, inl, inr, ℕ, ◌+◌, arith, Bool, true, not, ◌||◌, Option, none, some, List,
  [], ◌∷◌, Text, text, text_eq, nat_eq, ◌==◌, ==_iff, ltb, text_ltb, sort, slash, Bool-cases,
  Option-cases, Map, lookup, insert, lookup-insert_self, lookup-insert, if◌then◌else◌, Result, ok,
  err, ◌>>=◌, Result-cases, All, All-unsort, is_some,
}
use malt.Merge.Trees.{TreeNode, Tree, perm, merge_trees}

pub data Written : Type 0 where
  made_directory : ℕ → Written
  -- a copy of the file at a path, with the permissions that it has then
  copied : Text → ℕ → Written
  linked : Text → Written

pub data Problem : Type 0 where
  io_failed unsupported_kind : Problem
  conflicting : List Text → Problem

-- strings.Count(path, "/")
unfoldable pub depth : Text → ℕ
depth [] = 0
depth (c ∷ cs) = let rest = depth cs in if c == slash then 1 + rest else rest

unfoldable pub shallower : Text × TreeNode → Text × TreeNode → Bool
unfolding depth
shallower a b =
    if not (depth a.0 == depth b.0) then ltb (depth a.0) (depth b.0) else text_ltb a.0 b.0

unfoldable pub present_nodes : Map (Option TreeNode) → List (Text × TreeNode)
present_nodes [] = []
present_nodes ((path, none) ∷ rest) = present_nodes rest
present_nodes ((path, some node) ∷ rest) = (path, node) ∷ present_nodes rest

abbrev pub Destination : Type 0
Destination = Map Written

-- What the operating system does: the paths at which it fails, and the permissions that remain of
-- those asked for, with which it creates a file or directory, as the umask of the process says.
pub record System : Type 0 where
  pub fails : Text → Bool
  pub masked : ℕ → ℕ

-- A file or link does not replace what is there; a directory that is there is no failure.
unfoldable pub write_new : Text → Written → Destination → Result Problem Destination
write_new path made d = if is_some (lookup path d) then err io_failed else ok (insert path made d)

unfoldable pub write_node : System → Text → TreeNode → Destination → Result Problem Destination
unfolding write_new
write_node sys path node d =
    if not (node.kind == text "dir" || (node.kind == text "file" || node.kind == text "symlink"))
    then err unsupported_kind
    else if sys.fails path
    then err io_failed
    else if node.kind == text "dir"
    then (if is_some (lookup path d)
        then ok d
        else write_new path (made_directory (sys.masked (perm node))) d)
    else write_new path
        (if node.kind == text "file"
          then copied node.source (sys.masked (perm node))
          else linked node.link)
        d

unfoldable pub write_all :
    System → List (Text × TreeNode) → Destination → Result Problem Destination
unfolding write_node
write_all sys [] d = ok d
write_all sys ((path, node) ∷ rest) d =
    write_node sys path node d >>= λ next. write_all sys rest next

-- mergePlaintextTrees on scanned trees; the destination itself has the empty path
unfoldable pub merge_into : System → Tree → Tree → Tree → Destination → Result Problem Destination
unfolding merge_trees write_all shallower present_nodes
merge_into sys base local remote d = elim (merge_trees base local remote) [
  | err conflicts ↦ err (conflicting conflicts)
  | ok selected ↦
      if sys.fails []
      then err io_failed
      else write_all sys (sort shallower (present_nodes selected)) d
]

-- copyPlaintextTree: a tree that cannot conflict with itself
unfoldable pub copy_tree : System → Tree → Destination → Result Problem Destination
unfolding merge_into
copy_tree sys source d = merge_into sys source source source d

-- What stands at the path of a node that was written.
pub data IsWritten (sys : System) (d : Destination) (path : Text) (node : TreeNode) : Type 0 where
  as_directory :
      (found : Written)
      → node.kind ≡ text "dir"
      → lookup path d ≡ some found
      → IsWritten sys d path node
  as_file :
      node.kind ≡ text "file"
      → lookup path d ≡ some (copied node.source (sys.masked (perm node)))
      → IsWritten sys d path node
  as_link :
      node.kind ≡ text "symlink"
      → lookup path d ≡ some (linked node.link)
      → IsWritten sys d path node

-- Nothing that stands there is replaced.
abbrev Extends : Destination → Destination → Type 0
Extends d after = (path : Text) (w : Written) → lookup path d ≡ some w → lookup path after ≡ some w

write_new-Extends :
    (path : Text) (made : Written) (d after : Destination)
    → write_new path made d ≡ ok after
    → Extends d after × (lookup path after ≡ some made)
unfolding write_new
write_new-Extends path made d after h = elim (Option-cases (lookup path d)) [
  | inr (w, f) ↦ absurd (cc (rw (write_new, f) at h))
  | inl f ↦
      let same : insert path made d ≡ after = cc (rw (write_new, f) at h) in
      (
        λ asked w g. subst (λ x. lookup asked x ≡ some w) same (kept asked w f g),
        subst (λ x. lookup path x ≡ some made) same (lookup-insert_self path made d),
      )
]
  where
    kept :
        (asked : Text) (w : Written)
        → lookup path d ≡ none
        → lookup asked d ≡ some w
        → lookup asked (insert path made d) ≡ some w
    kept asked w f g = elim (Bool-cases (path == asked)) [
      | inl e ↦
          let same : path ≡ asked = (==_iff path asked).0 e in
          absurd (cc (sym g, sym (ap (λ p. lookup p d) same), f))
      | inr e ↦ rw (lookup-insert, e) g
    ]

write_node-IsWritten :
    (sys : System) (path : Text) (node : TreeNode) (d after : Destination)
    → write_node sys path node d ≡ ok after
    → Extends d after × IsWritten sys after path node
unfolding write_node
write_node-IsWritten sys path node d after h =
    let known =
      node.kind == text "dir" || (node.kind == text "file" || node.kind == text "symlink") in
    elim (Bool-cases known) [
      | inr k ↦ absurd (cc (rw (write_node, k) at h))
      | inl k ↦ elim (Bool-cases (sys.fails path)) [
        | inl f ↦ absurd (cc (rw (write_node, k, f) at h))
        | inr f ↦ elim (Bool-cases (node.kind == text "dir")) [
          | inl t ↦ directory t (lookup path d) refl (rw (write_node, k, f, t) at h)
          | inr t ↦ elim (Bool-cases (node.kind == text "file")) [
            | inl u ↦
                let (more, found) =
                  write_new-Extends path (copied node.source (sys.masked (perm node))) d after
                    (rw (write_node, k, f, t, u) at h) in
                (more, as_file ((==_iff _ _).0 u) found)
            | inr u ↦
                let (more, found) =
                  write_new-Extends path (linked node.link) d after
                    (rw (write_node, k, f, t, u) at h) in
                (
                  more,
                  as_link ((==_iff node.kind (text "symlink")).0 (ground (arith, k, t, u))) found,
                )
          ]
        ]
      ]
    ]
  where
    directory :
        (node.kind == text "dir") ≡ true
        → (o : Option Written) → lookup path d ≡ o
        → (if is_some o then ok d else write_new path (made_directory (sys.masked (perm node))) d)
          ≡ ok after
        → Extends d after × IsWritten sys after path node
    directory t none e r =
        let (more, found) =
          write_new-Extends path (made_directory (sys.masked (perm node))) d after r in
        (more, as_directory (made_directory (sys.masked (perm node))) ((==_iff _ _).0 t) found)
    directory t (some w) e r =
        let same : d ≡ after = cc r in
        (
          subst (Extends d) same (λ p v g. g),
          as_directory w ((==_iff _ _).0 t) (ap (lookup path) (sym same) ∙ e),
        )

IsWritten-Extends :
    (sys : System) (path : Text) (node : TreeNode) (d after : Destination)
    → Extends d after
    → IsWritten sys d path node
    → IsWritten sys after path node
IsWritten-Extends sys path node d after more (as_directory w k f) = as_directory w k (more path w f)
IsWritten-Extends sys path node d after more (as_file k f) = as_file k (more path _ f)
IsWritten-Extends sys path node d after more (as_link k f) = as_link k (more path _ f)

write_all-IsWritten :
    (sys : System) (nodes : List (Text × TreeNode)) (d after : Destination)
    → write_all sys nodes d ≡ ok after
    → Extends d after × All (λ p. IsWritten sys after p.0 p.1) nodes
unfolding write_all
write_all-IsWritten sys [] d after h = (subst (Extends d) (cc h) (λ p w f. f), tt)
write_all-IsWritten sys ((path, node) ∷ rest) d after h =
    elim (Result-cases (write_node sys path node d)) [
      | inr (_, r) ↦ absurd (cc (rw (write_all, r) at h))
      | inl (next, r) ↦
          let (first, written) = write_node-IsWritten sys path node d next r in
          let (later, others) = write_all-IsWritten sys rest next after (rw (write_all, r) at h) in
          (
            λ p w f. later p w (first p w f),
            (IsWritten-Extends sys path node next after later written, others),
          )
    ]

-- A merge that is written without a failure has, for every node of the selected tree, at its
-- path a copy of the file with what the umask leaves of its permissions, the link, or for a
-- directory something that stands there.
pub merge_into-IsWritten :
    (sys : System) (base local remote : Tree) (d after : Destination)
    → merge_into sys base local remote d ≡ ok after
    → (selected : Map (Option TreeNode)) × (merge_trees base local remote ≡ ok selected)
      × All (λ p. IsWritten sys after p.0 p.1) (present_nodes selected)
unfolding merge_into
merge_into-IsWritten sys base local remote d after h =
    elim (Result-cases (merge_trees base local remote)) [
      | inr (_, r) ↦ absurd (cc (rw (merge_into, r) at h))
      | inl (selected, r) ↦ elim (Bool-cases (sys.fails [])) [
        | inl f ↦ absurd (cc (rw (merge_into, r, f) at h))
        | inr f ↦
            let ordered = sort shallower (present_nodes selected) in
            let (more, written) =
              write_all-IsWritten sys ordered d after (rw (merge_into, r, f) at h) in
            (
              selected,
              r,
              All-unsort (λ p. IsWritten sys after p.0 p.1) shallower (present_nodes selected)
                  written,
            )
      ]
    ]
