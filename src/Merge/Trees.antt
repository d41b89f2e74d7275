-- ===== src/Merge/Trees.antt =====
-- The decisions of application/backup/merge.go. A tree is what scanPlaintextTree or scanPlaintextRoot
-- finds: a node for each path, clean and relative to the root, as filepath.Rel returns it.
use malt.Base.{
  ℕ, zero, suc, ◌/◌, ◌%◌, ◌^◌, Bool, true, false, ◌&&◌, Option, none, some, List, [], ◌∷◌, ◌++◌,
  length, Text, text, text_eq, nat_eq, ◌==◌, bytes, text_ltb, sort, split, join, slash, Map, lookup,
  insert, if◌then◌else◌, Result, ok, err,
}

pub record TreeNode : Type 0 where
  pub kind : Text
  pub mode : ℕ
  pub digest : Text
  pub link : Text
  pub source : Text

abbrev pub Tree : Type 0
Tree = Map TreeNode

-- Mode.Perm()
abbrev pub perm : TreeNode → ℕ
perm node = node.mode % 512

-- A node that may be nil.
unfoldable pub same_tree_node : Option TreeNode → Option TreeNode → Bool
same_tree_node none none = true
same_tree_node none (some right) = false
same_tree_node (some left) none = false
same_tree_node (some left) (some right) =
    left.kind == right.kind
    && (perm left == perm right && (left.digest == right.digest && left.link == right.link))

-- The set of paths, with those of one more tree.
unfoldable pub add_paths : Tree → Map (Unit {0}) → Map (Unit {0})
add_paths [] paths = paths
add_paths ((path, node) ∷ rest) paths = insert path tt (add_paths rest paths)

unfoldable pub all_paths : Tree → Tree → Tree → Map (Unit {0})
unfolding add_paths
all_paths base local remote = add_paths remote (add_paths local (add_paths base []))

-- What one path becomes, none if the two sides conflict.
unfoldable pub choose :
    Option TreeNode → Option TreeNode → Option TreeNode → Option (Option TreeNode)
unfolding same_tree_node
choose base local remote =
    if same_tree_node local remote
    then some local
    else if same_tree_node local base
    then some remote
    else if same_tree_node remote base
    then some local
    else none

pub record Selection : Type 0 where
  pub selected : Map (Option TreeNode)
  pub conflicts : List Text

unfoldable pub select_path : Text → Option (Option TreeNode) → Selection → Selection
select_path path none s = record s { conflicts = path ∷ s.conflicts }
select_path path (some node) s = record s { selected = insert path node s.selected }

unfoldable pub select_all : Tree → Tree → Tree → Map (Unit {0}) → Selection
unfolding choose select_path
select_all base local remote [] = record { selected = []; conflicts = [] }
select_all base local remote ((path, u) ∷ paths) =
    select_path path (choose (lookup path base) (lookup path local) (lookup path remote))
      (select_all base local remote paths)

unfoldable pub is_directory : Option (Option TreeNode) → Bool
is_directory (some (some node)) = node.kind == text "dir"
is_directory (some none) = false
is_directory none = false

-- The directories above a path, from its first segments on.
unfoldable pub parents : List Text → List Text → List Text
unfolding join
parents above [] = []
parents above (last ∷ []) = []
parents above (segment ∷ next ∷ rest) =
    let here = above ++ (segment ∷ []) in join slash here ∷ parents here (next ∷ rest)

unfoldable pub all_directories : Map (Option TreeNode) → List Text → Bool
unfolding is_directory
all_directories selected [] = true
all_directories selected (path ∷ paths) =
    is_directory (lookup path selected) && all_directories selected paths

-- The first path that is not under directories.
unfoldable pub misplaced : Map (Option TreeNode) → Map (Option TreeNode) → Option Text
unfolding all_directories parents split
misplaced selected [] = none
misplaced selected ((path, none) ∷ rest) = misplaced selected rest
misplaced selected ((path, some node) ∷ rest) =
    let later = misplaced selected rest in
    if all_directories selected (parents [] (split slash path)) then later else some path

-- The conflicts, or the tree that is to be written.
unfoldable pub merge_trees : Tree → Tree → Tree → Result (List Text) (Map (Option TreeNode))
unfolding select_all all_paths misplaced
merge_trees base local remote =
    let s = select_all base local remote (all_paths base local remote) in
    elim (s.conflicts) [
      | path ∷ paths ↦ err (sort text_ltb (path ∷ paths))
      | [] ↦ elim (misplaced s.selected s.selected) [
        | some path ↦ err (path ∷ [])
        | none ↦ ok s.selected
      ]
    ]

-- Every node of the left tree against the one of the right.
unfoldable pub same_nodes : Tree → Tree → Bool
unfolding same_tree_node
same_nodes [] right = true
same_nodes ((path, node) ∷ rest) right =
    same_tree_node (some node) (lookup path right) && same_nodes rest right

-- samePlaintextTree
unfoldable pub same_tree : Tree → Tree → Bool
unfolding same_nodes
same_tree left right = length left == length right && same_nodes left right

-- binary.BigEndian.PutUint32 and PutUint64
unfoldable pub big_endian : ℕ → ℕ → List ℕ
big_endian zero n = []
big_endian (suc k) n = (n / 256 ^ k) % 256 ∷ big_endian k n

-- writeMergeField
unfoldable pub merge_field : List ℕ → List ℕ
unfolding big_endian
merge_field value = big_endian 8 (length value % 2 ^ 64) ++ value

unfoldable pub node_fields : Text → TreeNode → List ℕ
unfolding merge_field bytes
node_fields path node =
    merge_field (bytes path)
    ++ (merge_field (bytes node.kind)
        ++ (big_endian 4 (perm node)
            ++ (merge_field (bytes node.digest) ++ merge_field (bytes node.link))))

unfoldable pub by_path : Text × TreeNode → Text × TreeNode → Bool
by_path a b = text_ltb a.0 b.0

unfoldable pub fields : Tree → List ℕ
unfolding node_fields
fields [] = []
fields ((path, node) ∷ rest) = node_fields path node ++ fields rest

-- plaintextNodeFingerprint, up to the sum and its text
unfoldable pub fingerprint_input : Tree → List ℕ
unfolding fields by_path
fingerprint_input tree = fields (sort by_path tree)
