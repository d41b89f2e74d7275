-- ===== src/Journal/Store/Prune.antt =====
-- PruneCompleted: the completed operations and, pass by pass, their superseded ancestors.
use malt.Base.{
  ℕ, zero, suc, Bool, not, ◌&&◌, List, [], ◌∷◌, Text, text_eq, nat_eq, ◌==◌, if◌then◌else◌, Map,
  delete, length,
}
use malt.Journal.Types.{Status, Operation, State, status_eq}
use malt.Journal.Normalize.{member}

unfoldable pub completed_ids : Map Operation → List Text
completed_ids [] = []
completed_ids ((id, o) ∷ rest) =
    let ids = completed_ids rest in if o.status == Status.completed then id ∷ ids else ids

-- A superseded record whose replacement is selected, and that is not selected itself.
unfoldable pub joins : List Text → Text → Operation → Bool
unfolding member
joins selected id o =
    o.status == Status.superseded
    && (member o.replacement_operation_id selected && not (member id selected))

-- One pass of the loop; what it selects counts at once.
unfoldable pub prune_pass : Map Operation → List Text → List Text
unfolding joins
prune_pass [] selected = selected
prune_pass ((id, o) ∷ rest) selected =
    prune_pass rest (if joins selected id o then id ∷ selected else selected)

-- `for changed := true; changed`, with fuel: a pass that adds nothing ends the loop.
unfoldable pub prune_loop : ℕ → Map Operation → List Text → List Text
unfolding prune_pass
prune_loop zero operations selected = selected
prune_loop (suc fuel) operations selected =
    let next = prune_pass operations selected in
    let later = prune_loop fuel operations next in
    if length next == length selected then selected else later

unfoldable pub delete_all : List Text → Map Operation → Map Operation
delete_all [] operations = operations
delete_all (id ∷ ids) operations = delete_all ids (delete id operations)

-- Each pass but the last selects one more record, so one more pass than records is enough.
unfoldable pub finished_ids : Map Operation → List Text
unfolding completed_ids prune_loop
finished_ids operations = prune_loop (suc (length operations)) operations (completed_ids operations)

unfoldable pub prune_locked : State → ℕ × State
unfolding finished_ids delete_all
prune_locked s =
    let selected = finished_ids s.operations in
    (length selected, record s { operations = delete_all selected s.operations })
