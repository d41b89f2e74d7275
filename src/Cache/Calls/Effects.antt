-- ===== src/Cache/Calls/Effects.antt =====
-- Every call of cache/store.go changes metadata.json only by the abstract changes.
use mathlib.Core.Path.{subst}
use malt.Base.{
  ◌≡◌, refl, sym, ◌∙◌, ◌⊎◌, inl, inr, ℕ, arith, Option, none, some, text_eq, Bool-cases, ok, err,
  Result-cases, Map,
}
use malt.Base.Cids.{CidCodec}
use malt.Cache.Types.{Entry, Metadata, Outcome, Disk, Io, Hashes}
use malt.Cache.Disk.{load, save, reconcile, write_metadata}
use malt.Cache.Store.Locked.{Done, commit}
use malt.Cache.Store.Methods.{read_metadata, reload, with_state, call}
use malt.Cache.Calls.{Call, Change, Becomes, unchanged, changed}

module _ ⦃c : CidCodec⦄ (h : Hashes) (now : ℕ) (made : Call) (io : Io) where
  -- An operation on loaded entries that changes the metadata only so.
  abbrev pub IsLegal : {A : Type 0} → (Map Entry → Disk → Done A) → Type 0
  IsLegal op =
      (entries : Map Entry) (d : Disk)
      → load h d.metadata ≡ ok entries
      → Becomes h now made d.metadata (op entries d).1.metadata

  reconcile-metadata :
      (entries : Map Entry) (d : Disk) → (reconcile io entries d).1.metadata ≡ d.metadata
  unfolding reconcile
  reconcile-metadata entries d = ground arith

  reload-metadata : (d : Disk) → (reload h io d).1.metadata ≡ d.metadata
  unfolding reload
  reload-metadata d = elim (Result-cases (read_metadata h io d.metadata)) [
    | inl (entries, r) ↦ rw (r, reload) (reconcile-metadata entries d)
    | inr (_, r) ↦ rw (r, reload) refl
  ]

  read_metadata-load :
      (m : Option Metadata) (entries : Map Entry)
      → read_metadata h io m ≡ ok entries
      → load h m ≡ ok entries
  unfolding read_metadata
  read_metadata-load none entries l = l
  read_metadata-load (some next) entries l = elim (Bool-cases io.readable) [
    | inl r ↦ rw (r, read_metadata) at l
    | inr r ↦ absurd (cc (rw (r, read_metadata) at l))
  ]

  pub reload-load :
      (d : Disk) (entries : Map Entry)
      → (reload h io d).0 ≡ ok entries
      → load h d.metadata ≡ ok entries
  unfolding reload
  reload-load d entries l = elim (Result-cases (read_metadata h io d.metadata)) [
    | inr (_, r) ↦ absurd (cc (rw (r, reload) at l))
    | inl (found, r) ↦ elim (Result-cases ((reconcile io found d).0)) [
      | inr (_, q) ↦ absurd (cc (rw (r, reload, q) at l))
      | inl (_, q) ↦ read_metadata-load d.metadata entries (r ∙ (rw (r, reload, q) at l))
    ]
  ]

  -- What a call does to the metadata, given what its operation does.
  pub with_state-Becomes :
      {A : Type 0} (op : Map Entry → Disk → Done A)
      → IsLegal op
      → (d : Disk) → Becomes h now made d.metadata (with_state h io op d).1.metadata
  unfolding with_state
  with_state-Becomes op legal d = elim (Bool-cases io.prepared) [
    | inr p ↦ rw (p, with_state) (unchanged d.metadata)
    | inl p ↦ elim (Result-cases ((reload h io d).0)) [
      | inr (_, r) ↦
          rw (p, with_state, r)
            (subst (λ m. Becomes h now made d.metadata m) (sym (reload-metadata d))
              (unchanged d.metadata))
      | inl (entries, r) ↦
          rw (p, with_state, r)
            (subst (λ m. Becomes h now made m (op entries (reload h io d).1).1.metadata)
              (reload-metadata d)
              (legal entries (reload h io d).1 (rw (reload-metadata d) (reload-load d entries r))))
    ]
  ]

  pub call-Becomes :
      {X A : Type 0} (checked : Outcome X) (op : X → Map Entry → Disk → Done A)
      → ((x : X) → checked ≡ ok x → IsLegal (op x))
      → (d : Disk) → Becomes h now made d.metadata (call h io checked op d).1.metadata
  unfolding call
  call-Becomes (err _) op legal d = unchanged d.metadata
  call-Becomes (ok x) op legal d = with_state-Becomes (op x) (legal x refl) d

  write_metadata-cases :
      (new : Map Entry) (d : Disk)
      → ((write_metadata io new d).1.metadata ≡ d.metadata)
        ⊎ ((write_metadata io new d).1.metadata ≡ some (save new))
  unfolding write_metadata
  write_metadata-cases new d = ground arith

  -- What an operation that changes loaded entries makes of the metadata.
  pub write_metadata-Becomes :
      (entries new : Map Entry) (m : Option Metadata) (d : Disk)
      → load h m ≡ ok entries
      → Change h now made entries (some (save new))
      → d.metadata ≡ m
      → Becomes h now made m (write_metadata io new d).1.metadata
  write_metadata-Becomes entries new m d l change s = elim (write_metadata-cases new d) [
    | inl e ↦ subst (Becomes h now made m) (sym (e ∙ s)) (unchanged m)
    | inr e ↦ subst (Becomes h now made m) (sym e) (changed m _ _ entries l change (unchanged _))
  ]

  -- `withState(true, …)`
  pub commit-IsLegal :
      {A : Type 0} (op : Map Entry → Outcome (A × Map Entry))
      → ((entries : Map Entry) (a : A) (new : Map Entry)
          → op entries ≡ ok (a, new)
          → Change h now made entries (some (save new)))
      → IsLegal (commit io op)
  unfolding commit
  commit-IsLegal op change entries d l = elim (Result-cases (op entries)) [
    | inr (_, r) ↦ rw (r, commit) (unchanged d.metadata)
    | inl ((a, new), r) ↦
        rw (r, commit)
          (write_metadata-Becomes entries new d.metadata d l (change entries a new r) refl)
  ]
