-- ===== src/Journal/Invariant/Settling.antt =====
-- The three batch operations settle records along edges of the life cycle.
use malt.Base.{◌≡◌, ◌⊎◌, ok, Text, ℕ, arith}
use malt.Journal.Types.{Status, Operation, status_eq}
use malt.Journal.Store.Batches.{
  settle, check_freezable, freeze, check_conflictable, mark_conflict, check_completable, finish,
}
use malt.Journal.Invariant.Rewrites.{Kept}
use malt.Journal.Invariant.Lifecycle.{◌⟶◌, Evolves, edges}
use malt.Journal.Invariant.Batches.{IsSettling}

freeze-Kept :
    (now : ℕ) (o : Operation)
    → check_freezable o ≡ ok tt
    → Kept o (settle Status.pending_upload (freeze now) o)
unfolding check_freezable freeze settle
freeze-Kept now o h = ground arith

freeze-edge :
    (now : ℕ) (o : Operation)
    → check_freezable o ≡ ok tt
    → (o.status ≡ Status.pending_upload) ⊎ (o.status ⟶ Status.pending_upload)
unfolding check_freezable freeze
freeze-edge now o h = grind (arith, edges)

freeze-Evolves :
    (now : ℕ) (o : Operation)
    → check_freezable o ≡ ok tt
    → Evolves o (settle Status.pending_upload (freeze now) o)
unfolding check_freezable freeze settle
freeze-Evolves now o h = ground (arith, freeze-edge now o h)

pub freeze-IsSettling : (now : ℕ) → IsSettling check_freezable Status.pending_upload (freeze now)
freeze-IsSettling now = record { kept = freeze-Kept now; evolves = freeze-Evolves now }

conflict-Kept :
    (now : ℕ) (c : Text) (o : Operation)
    → (check_conflictable c) o ≡ ok tt
    → Kept o (settle Status.conflicted (mark_conflict now c) o)
unfolding check_conflictable mark_conflict settle
conflict-Kept now c o h = ground arith

conflict-edge :
    (now : ℕ) (c : Text) (o : Operation)
    → (check_conflictable c) o ≡ ok tt
    → (o.status ≡ Status.conflicted) ⊎ (o.status ⟶ Status.conflicted)
unfolding check_conflictable mark_conflict
conflict-edge now c o h = grind (arith, edges)

conflict-Evolves :
    (now : ℕ) (c : Text) (o : Operation)
    → (check_conflictable c) o ≡ ok tt
    → Evolves o (settle Status.conflicted (mark_conflict now c) o)
unfolding check_conflictable mark_conflict settle
conflict-Evolves now c o h = ground (arith, conflict-edge now c o h)

pub conflict-IsSettling :
    (now : ℕ) (c : Text) → IsSettling (check_conflictable c) Status.conflicted (mark_conflict now c)
conflict-IsSettling now c = record { kept = conflict-Kept now c; evolves = conflict-Evolves now c }

completion-Kept :
    (now : ℕ) (root : Text) (o : Operation)
    → (check_completable root) o ≡ ok tt
    → Kept o (settle Status.completed (finish now root) o)
unfolding check_completable finish settle
completion-Kept now root o h = ground arith

completion-edge :
    (now : ℕ) (root : Text) (o : Operation)
    → (check_completable root) o ≡ ok tt
    → (o.status ≡ Status.completed) ⊎ (o.status ⟶ Status.completed)
unfolding check_completable finish
completion-edge now root o h = grind (arith, edges)

completion-Evolves :
    (now : ℕ) (root : Text) (o : Operation)
    → (check_completable root) o ≡ ok tt
    → Evolves o (settle Status.completed (finish now root) o)
unfolding check_completable finish settle
completion-Evolves now root o h = ground (arith, completion-edge now root o h)

pub completion-IsSettling :
    (now : ℕ) (root : Text) → IsSettling (check_completable root) Status.completed (finish now root)
completion-IsSettling now root = record {
  kept = completion-Kept now root;
  evolves = completion-Evolves now root;
}
