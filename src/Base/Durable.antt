-- ===== src/Base/Durable.antt =====
-- The protocol by which each store keeps one JSON file: take the lock, read and validate the file,
-- run the operation on what was read, and replace the file by a rename. `Io` says which calls of the
-- operating system and the JSON decoder fail. A file is the document that it decodes to.
pub mod Laws
use mathlib.Core.Bool.{Bool, true}
use mathlib.Core.Option.{Option, none, some}
use malt.Base.Tests.{if◌then◌else◌}
use malt.Base.Results.{Result, ok, err}

-- What happened to the replacement of the file: a failure may come before or after the rename.
pub data WriteOutcome : Type 0 where
  replaced failed_before_rename failed_after_rename : WriteOutcome

pub record Io : Type 0 where
  -- the directory was made and the lock taken
  pub prepared : Bool
  -- a file that is there was read, protected and decoded
  pub readable : Bool
  pub writing : WriteOutcome

-- All goes well.
abbrev pub healthy : Io
healthy = record { prepared = true; readable = true; writing = replaced }

-- What an operation hands back: its result, and the state that it writes, if it writes one.
abbrev pub Outcome : Type 0 → Type 0 → Type 0 → Type 0
Outcome E A S = Result E A × Option S

-- An operation of `withState(true, …)`: an error writes nothing.
abbrev pub writes : {E A S : Type 0} → Result E (A × S) → Outcome E A S
writes (ok (a, s)) = (ok a, some s)
writes (err e) = (err e, none)

-- An operation of `withState(false, …)`.
abbrev pub reads : {E A S : Type 0} → Result E A → Outcome E A S
reads r = (r, none)

module _ {D S E : Type 0} (load : D → Result E S) (save : S → D) (empty : S) (io_error : E) where
  -- reloadLocked: a file that is not there is the empty state
  unfoldable pub reload : Io → Option D → Result E S
  reload io none = ok empty
  reload io (some d) = if io.readable then load d else err io_error

  unfoldable pub replace :
      {A : Type 0} → WriteOutcome → Outcome E A S → Option D → Result E A × Option D
  replace w (r, none) disk = (r, disk)
  replace replaced (r, some s) disk = (r, some (save s))
  replace failed_before_rename (r, some s) disk = (err io_error, disk)
  replace failed_after_rename (r, some s) disk = (err io_error, some (save s))

  -- The operation on what was read.
  unfoldable pub apply_loaded :
      {A : Type 0} → Io → (S → Outcome E A S) → Result E S → Option D → Result E A × Option D
  unfolding replace
  apply_loaded io op (ok s) disk = replace io.writing (op s) disk
  apply_loaded io op (err e) disk = (err e, disk)

  unfoldable pub with_state :
      {A : Type 0} → Io → (S → Outcome E A S) → Option D → Result E A × Option D
  unfolding reload apply_loaded
  with_state io op disk =
      if io.prepared then apply_loaded io op (reload io disk) disk else (err io_error, disk)

  -- A public method: what it checks before it takes the lock, then the operation.
  unfoldable pub call :
      {X A : Type 0} → Io → Result E X → (X → S → Outcome E A S) → Option D → Result E A × Option D
  unfolding with_state
  call io (err e) op disk = (err e, disk)
  call io (ok x) op disk = with_state io (op x) disk
