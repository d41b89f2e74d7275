-- ===== src/Base/Durable/Laws.antt =====
-- What the protocol makes of any operation that writes.
use malt.Base.Tests.{if◌then◌else◌}
use malt.Base.Results.{Result, ok, err}
use malt.Base.Durable.{
  Io, WriteOutcome, replaced, failed_before_rename, failed_after_rename, writes, reload, replace,
  apply_loaded, call,
}
use mathlib.Core.Path.{◌≡◌, refl, ap, subst}
use mathlib.Core.Logic.{◌≢◌, ◌⊎◌, inl, inr}
use mathlib.Core.Bool.{Bool, true, false}
use mathlib.Core.Option.{Option, some}

module _ {D S E A : Type 0} (load : D → Result E S) (save : S → D) (empty : S) (io_error : E) where
  -- What became of a result that was to be written: nothing was stored, it was stored although the
  -- caller gets an error, or it was stored.
  pub data Effect (made : Result E (A × S)) (w : WriteOutcome) (disk : Option D)
      (out : Result E A × Option D) : Type 0 where
    refused : (e : E) → out ≡ (err e, disk) → Effect made w disk out
    interrupted :
        (a : A) (t : S)
        → w ≡ failed_after_rename
        → made ≡ ok (a, t)
        → out ≡ (err io_error, some (save t))
        → Effect made w disk out
    stored :
        (a : A) (t : S)
        → w ≡ replaced
        → made ≡ ok (a, t)
        → out ≡ (ok a, some (save t))
        → Effect made w disk out

  replace-Effect :
      (w : WriteOutcome) (made : Result E (A × S)) (disk : Option D)
      → Effect made w disk (replace load save empty io_error w (writes made) disk)
  unfolding replace
  replace-Effect w (err e) disk = refused e refl
  replace-Effect replaced (ok (a, t)) disk = stored a t refl refl refl
  replace-Effect failed_before_rename (ok (a, t)) disk = refused io_error refl
  replace-Effect failed_after_rename (ok (a, t)) disk = interrupted a t refl refl refl

  module _ {X : Type 0} (io : Io) (f : X → S → Result E (A × S)) where
    -- A whole call: its checks passed and the file was read, or nothing was stored.
    pub data CallEffect (checked : Result E X) (disk : Option D) (out : Result E A × Option D)
        : Type 0 where
      nothing : (e : E) → out ≡ (err e, disk) → CallEffect checked disk out
      acted :
          (x : X) (s : S)
          → checked ≡ ok x
          → reload load save empty io_error io disk ≡ ok s
          → Effect (f x s) io.writing disk out
          → CallEffect checked disk out

    pub call-CallEffect :
        (checked : Result E X) (disk : Option D)
        → CallEffect checked disk
            (call load save empty io_error io checked (λ x s. writes (f x s)) disk)
    unfolding call apply_loaded
    call-CallEffect (err e) disk = nothing e refl
    call-CallEffect (ok x) disk = prepared io.prepared
      where
        loaded :
            (r : Result E S)
            → reload load save empty io_error io disk ≡ r
            → CallEffect
                (ok x)
                disk
                (apply_loaded load save empty io_error io (λ s. writes (f x s)) r disk)
        loaded (err e) h = nothing e refl
        loaded (ok s) h = acted x s refl h (replace-Effect io.writing (f x s) disk)

        prepared :
            (b : Bool)
            → CallEffect (ok x) disk (
                if b
                then apply_loaded load save empty io_error io
                    (λ s. writes (f x s))
                    (reload load save empty io_error io disk)
                    disk
                else (err io_error, disk))
        prepared true = loaded (reload load save empty io_error io disk) refl
        prepared false = nothing io_error refl

  -- A file that is left as it was, or replaced by a state that the operation made of what was read.
  pub call-disk :
      {X : Type 0} (io : Io) (f : X → S → Result E (A × S)) (checked : Result E X) (disk : Option D)
      → let after = (call load save empty io_error io checked (λ x s. writes (f x s)) disk).1 in
        (after ≡ disk)
        ⊎ ((x : X) × (s : S) × (a : A) × (t : S) × (checked ≡ ok x)
            × (reload load save empty io_error io disk ≡ ok s)
            × (f x s ≡ ok (a, t))
            × (after ≡ some (save t)))
  call-disk io f checked disk = elim (call-CallEffect io f checked disk) [
    | nothing e out ↦ inl (ap (λ p. p.1) out)
    | acted x s c r (refused e out) ↦ inl (ap (λ p. p.1) out)
    | acted x s c r (interrupted a t _ made out) ↦ inr (x, s, a, t, c, r, made, ap (λ p. p.1) out)
    | acted x s c r (stored a t _ made out) ↦ inr (x, s, a, t, c, r, made, ap (λ p. p.1) out)
  ]

  -- A caller that gets a result finds it stored; one that gets an error finds the file as it was,
  -- unless the failure came after the rename.
  pub call-answer :
      {X : Type 0} (io : Io) (f : X → S → Result E (A × S)) (checked : Result E X) (disk : Option D)
      → let out = call load save empty io_error io checked (λ x s. writes (f x s)) disk in
        ((a : A)
          → out.0 ≡ ok a
          → (x : X) × (s : S) × (t : S) × (checked ≡ ok x)
            × (reload load save empty io_error io disk ≡ ok s)
            × (f x s ≡ ok (a, t))
            × (out.1 ≡ some (save t)))
        × ((e : E) → out.0 ≡ err e → io.writing ≢ failed_after_rename → out.1 ≡ disk)
  call-answer io f checked disk = elim (call-CallEffect io f checked disk) [
    | nothing e out ↦ (λ a h. absurd (cc (ap (λ p. p.0) out)), λ e h n. ap (λ p. p.1) out)
    | acted x s c r (refused e out) ↦
        (λ a h. absurd (cc (ap (λ p. p.0) out)), λ e h n. ap (λ p. p.1) out)
    | acted x s c r (interrupted a t late made out) ↦
        (λ b h. absurd (cc (ap (λ p. p.0) out)), λ e h n. absurd (n late))
    | acted x s c r (stored a t _ made out) ↦ (
      λ b h.
          let same : a ≡ b = cc (ap (λ p. p.0) out) in
          (x, s, t, c, r, subst (λ v. f x s ≡ ok (v, t)) same made, ap (λ p. p.1) out),
      λ e h n. absurd (cc (ap (λ p. p.0) out)),
    )
  ]
