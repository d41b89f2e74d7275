-- ===== src/Journal/Lifetime.antt =====
-- A journal file from its first call on, whatever fails on the way.
use mathlib.Core.Path.{subst}
use malt.Base.{
  ◌⊎◌, inl, inr, ℕ, ◌+◌, ◌^◌, ◌≤◌, ◌<◌, ◌≡◌, refl, none, some, List, [], ◌∷◌, lookup, arith, ok,
  length,
}
use malt.Base.Cids.{CidCodec}
use malt.Base.Durable.{Io, healthy, reload}
use malt.Journal.Types.{State}
use malt.Journal.Load.{empty_state, save, load_tombstones}
use malt.Journal.Store.Methods.{Disk}
use malt.Journal.Canonical.Saved.{IsLoadable, load-save}
use malt.Journal.Canonical.Steps.{Step-IsLoadable}
use malt.Journal.History.Steps.{Step}
use malt.Journal.History.Calls.{Call, perform, perform-Stepped, read}
use malt.Journal.History.Clocks.{CreatedBy, Step-Advanced}

-- One call, with its time and what fails in it.
pub record Event : Type 0 where
  pub io : Io
  pub now : ℕ
  pub call : Call

-- The clock does not go back, and is never before a given time.
abbrev pub IsOrdered : ℕ → List Event → Type 0
IsOrdered last [] = Unit {0}
IsOrdered last (e ∷ es) = (last ≤ e.now) × IsOrdered e.now es

module _ ⦃cids : CidCodec⦄ where
  unfoldable pub run : List Event → Disk → Disk
  unfolding perform
  run [] disk = disk
  run (e ∷ es) disk = run es (perform e.io e.now e.call disk)

  -- A file that some loadable state was saved to, or none.
  abbrev Stores : Disk → State → Type 0
  Stores disk s = ((disk ≡ none) × (s ≡ empty_state)) ⊎ (disk ≡ some (save s))

  read-Stores :
      (io : Io) (disk : Disk) (s t : State)
      → Stores disk s
      → IsLoadable s
      → read io disk ≡ ok t
      → t ≡ s
  unfolding reload
  read-Stores io disk s t (inl (e, e')) v h = ground arith
  read-Stores io disk s t (inr e) v h = ground (arith, load-save s v)

  read-healthy : (disk : Disk) (s : State) → Stores disk s → IsLoadable s → read healthy disk ≡ ok s
  unfolding reload
  read-healthy disk s (inl (e, e')) v = rw (e, e') refl
  read-healthy disk s (inr e) v = rw e (load-save s v)

  record IsGood (clock n : ℕ) (disk : Disk) : Type 0 where
    state : State
    stored : Stores disk state
    loadable : IsLoadable state
    created : CreatedBy clock state
    counter : state.next_sequence ≤ n

  perform-IsGood :
      (clock n : ℕ) (e : Event) (disk : Disk)
      → 0 < clock
      → clock ≤ e.now
      → n + 1 < 2 ^ 64
      → IsGood clock n disk
      → IsGood e.now (n + 1) (perform e.io e.now e.call disk)
  perform-IsGood clock n e disk p l room g =
      let aged : CreatedBy e.now g.state = λ j o h. omega (arith, g.created j o h) in
      elim (perform-Stepped e.io e.now e.call disk) [
        | inl same ↦ rw same (record {
          state = g.state;
          stored = g.stored;
          loadable = g.loadable;
          created = aged;
          counter = omega (arith, g.counter);
        })
        | inr (s, t, r, step, after) ↦
            let one : s ≡ g.state = read-Stores e.io disk g.state s g.stored g.loadable r in
            let step' : Step e.now g.state t = subst (λ x. Step e.now x t) one step in
            let (created, next) = Step-Advanced e.now g.state t step' g.loadable.inv aged in
            record {
              state = t;
              stored = inr after;
              loadable =
                  Step-IsLoadable e.now g.state t step' g.loadable (omega arith, aged)
                    (omega (arith, g.counter));
              created = created;
              counter = omega (arith, next, g.counter);
            }
      ]

  run-IsGood :
      (clock n : ℕ) (es : List Event) (disk : Disk)
      → 0 < clock
      → IsOrdered clock es
      → n + length es < 2 ^ 64
      → IsGood clock n disk
      → (m k : ℕ) × IsGood m k (run es disk)
  unfolding run
  run-IsGood clock n [] disk p o room g = (clock, n, g)
  run-IsGood clock n (e ∷ es) disk p o room g =
      run-IsGood e.now (n + 1) es (perform e.io e.now e.call disk) (omega arith) o.1 (omega arith)
        (perform-IsGood clock n e disk p o.0 (omega arith) g)

  pub empty-IsLoadable : IsLoadable empty_state
  unfolding lookup load_tombstones
  empty-IsLoadable = record {
    inv = record {
      distinct = tt;
      positive = omega arith;
      keyed = λ id o h. absurd (cc);
      bounded = λ id o h. absurd (cc);
      used = λ id o h. absurd (cc);
      sequences_differ = λ i j o p h k e. absurd (cc);
      retries_differ = λ i j o p h k e. absurd (cc);
      replaced = λ id o h e. absurd (cc);
      replacements_differ = λ i j o p h k d e x. absurd (cc);
    };
    sound = λ id o h. absurd (cc);
    ids = refl;
    retries = refl;
  }

  empty-IsGood : IsGood 1 1 none
  unfolding lookup
  empty-IsGood = record {
    state = empty_state;
    stored = inl (refl, refl);
    loadable = empty-IsLoadable;
    created = λ id o h. absurd (cc);
    counter = omega arith;
  }

  -- A journal file that starts as no file and goes through any list of calls, whatever fails in
  -- each of them, can be read at the end, and what is read is a loadable state: if the clock is
  -- at least 1 and does not go back, and the calls are fewer than 2^64 - 1.
  pub run-loads :
      (es : List Event)
      → IsOrdered 1 es
      → length es + 1 < 2 ^ 64
      → (s : State) × (read healthy (run es none) ≡ ok s) × IsLoadable s
  run-loads es o room =
      let (m, k, g) = run-IsGood 1 1 es none (omega arith) o (omega arith) empty-IsGood in
      (g.state, read-healthy (run es none) g.state g.stored g.loadable, g.loadable)
