-- ===== src/Examples/Merge.antt =====
-- A tree with two files, of which each side changes one.
use malt.Base.{
  ◌≡◌, ◌↔◌, ◌⊎◌, refl, false, Option, none, some, [], ◌∷◌, Text, text, ok, err, Map, lookup, map, ℕ,
  ◌-◌, ◌*◌, ◌/◌, ◌%◌, sort, All, arith,
}
use malt.Merge.Trees.{TreeNode, Tree, merge_trees, fingerprint_input, by_path}
use malt.Merge.Install.{
  System, Destination, copied, merge_into, present_nodes, IsWritten, merge_into-IsWritten,
}
use malt.Merge.Choices.{
  IsMerged, IsConflictAt, merged_node, merge_trees-IsMerged, merge_trees-IsConflict,
}
use malt.Merge.Places.{IsMisplaced}
use malt.Merge.Fingerprints.{view, IsShort, fingerprint_input_iff}

abbrev pub file_of : Text → Text → TreeNode
file_of digest source = record {
  kind = text "file";
  mode = 436;
  digest = digest;
  link = [];
  source = source;
}

-- &^ 0o022
unfoldable pub without_write : ℕ → ℕ
without_write mode = mode - mode / 16 % 2 * 16 - mode / 2 % 2 * 2

-- Nothing fails, and the umask takes the permission of writing from group and others.
abbrev pub usual : System
usual = record { fails = λ p. false; masked = without_write }

abbrev pub base_tree : Tree
base_tree =
    (text "a", file_of (text "1") (text "base/a"))
    ∷ (text "b", file_of (text "1") (text "base/b"))
    ∷ []

abbrev pub local_tree : Tree
local_tree =
    (text "a", file_of (text "2") (text "here/a"))
    ∷ (text "b", file_of (text "1") (text "here/b"))
    ∷ []

abbrev pub remote_tree : Tree
remote_tree =
    (text "a", file_of (text "1") (text "there/a"))
    ∷ (text "b", file_of (text "3") (text "there/b"))
    ∷ []

abbrev pub merged : Map (Option TreeNode)
merged =
    (text "a", some (file_of (text "2") (text "here/a")))
    ∷ (text "b", some (file_of (text "3") (text "there/b")))
    ∷ []

abbrev pub written : Destination
written = (text "a", copied (text "here/a") 420) ∷ (text "b", copied (text "there/b") 420) ∷ []

both_merge : merge_trees base_tree local_tree remote_tree ≡ ok merged
unfolding merge_trees malt.Base.insert malt.Base.Text-discrete lookup
both_merge = refl

both_conflict : merge_trees [] local_tree base_tree ≡ err (text "a" ∷ [])
unfolding merge_trees malt.Base.insert malt.Base.Text-discrete lookup sort
both_conflict = refl

-- One side has a file where the other one has a file inside a directory that is not there.
abbrev pub lost_directory : Tree
lost_directory = (text "a", file_of (text "1") (text "here/a")) ∷ []

abbrev pub new_inside : Tree
new_inside = (text "a/b", file_of (text "2") (text "there/a/b")) ∷ []

inside_conflict : merge_trees [] lost_directory new_inside ≡ err (text "a/b" ∷ [])
unfolding merge_trees malt.Base.insert malt.Base.Text-discrete lookup sort malt.Base.split
inside_conflict = refl

both_write : merge_into usual base_tree local_tree remote_tree [] ≡ ok written
unfolding merge_into without_write malt.Base.insert malt.Base.Text-discrete lookup sort
    malt.Base.text_ltb
both_write = refl

small-IsShort : (source : Text) → IsShort (text "a", file_of (text "1") source)
unfolding malt.Base.bytes malt.Base.encode
small-IsShort source = (omega arith, omega arith, omega arith, omega arith)

merge_trees-IsMerged_example :
    IsMerged
      (lookup (text "b") base_tree)
      (lookup (text "b") local_tree)
      (lookup (text "b") remote_tree)
      (merged_node base_tree local_tree remote_tree (lookup (text "b") merged))
merge_trees-IsMerged_example =
    merge_trees-IsMerged base_tree local_tree remote_tree merged both_merge (text "b")

merge_trees-IsConflict_example :
    All (IsConflictAt [] lost_directory new_inside) (text "a/b" ∷ [])
    ⊎ ((path : Text) × (text "a/b" ∷ [] ≡ path ∷ [])
        × (tree : Map (Option TreeNode)) × ((asked : Text)
            → IsMerged
                (lookup asked [])
                (lookup asked lost_directory)
                (lookup asked new_inside)
                (merged_node [] lost_directory new_inside (lookup asked tree)))
        × IsMisplaced tree path)
merge_trees-IsConflict_example =
    merge_trees-IsConflict [] lost_directory new_inside (text "a/b" ∷ []) inside_conflict

merge_into-IsWritten_example :
    (selected : Map (Option TreeNode)) × (merge_trees base_tree local_tree remote_tree
      ≡ ok selected)
    × All (λ p. IsWritten usual written p.0 p.1) (present_nodes selected)
merge_into-IsWritten_example =
    merge_into-IsWritten usual base_tree local_tree remote_tree [] written both_write

abbrev pub small_tree : Tree
small_tree = (text "a", file_of (text "1") (text "base/a")) ∷ []

abbrev pub same_small : Tree
same_small = (text "a", file_of (text "1") (text "there/a")) ∷ []

fingerprint_input_iff_example :
    (fingerprint_input small_tree ≡ fingerprint_input same_small)
    ↔ (map view (sort by_path small_tree) ≡ map view (sort by_path same_small))
fingerprint_input_iff_example =
    fingerprint_input_iff small_tree same_small (small-IsShort (text "base/a"), tt)
      (small-IsShort (text "there/a"), tt)
