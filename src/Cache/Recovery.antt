-- ===== src/Cache/Recovery.antt =====
-- What was put into the cache of cache/store.go is read from it again.
pub mod Puts
pub mod RoundTrips
use mathlib.Core.Path.{subst}
use malt.Base.{
  ◌≡◌, ◌≢◌, refl, sym, ap, ◌∙◌, inl, inr, ℕ, arith, Bool, true, false, not, ◌&&◌, ◌||◌, Option,
  none, some, [], ◌∷◌, Text, text, text_eq, ◌==◌, ==_iff, ==_refl, Bool-cases, Option-cases, Result,
  ok, err, ◌>>=◌, Result-cases, Map, lookup, insert, if◌then◌else◌, has_prefix,
}
use malt.Base.Cids.{CidCodec}
use malt.Base.Durable.{replaced}
use malt.Cache.Types.{Entry, Metadata, Node, Disk, Io, Hashes, Outcome}
use malt.Cache.Disk.{
  is_referenced, is_orphan, is_directory, body_name, sweep, reconcile, load, save,
}
use malt.Cache.Store.Locked.{Done}
use malt.Cache.Store.Methods.{read_metadata, reload, with_state}
use malt.Cache.Entries.{AllAccepted, load-save}

-- All goes well.
abbrev pub healthy : Io
healthy = record {
  prepared = true;
  readable = true;
  blobs_listed = true;
  others_listed = true;
  swept = λ name. true;
  body_readable = true;
  removed = true;
  body_writing = replaced;
  writing = replaced;
}

sweep-ok : (doomed : Text → Bool) (m : Map Node) → (sweep (λ name. true) doomed m).0 ≡ ok tt
unfolding sweep
sweep-ok doomed [] = refl
sweep-ok doomed ((name, node) ∷ rest) = elim (Bool-cases (not (is_directory node) && doomed name)) [
  | inl e ↦ rw (e, sweep) (sweep-ok doomed rest)
  | inr e ↦ rw (e, sweep) (sweep-ok doomed rest)
]

-- What is not an orphan stays, whichever removals fail.
pub sweep-lookup :
    (removable doomed : Text → Bool) (asked : Text) (m : Map Node)
    → doomed asked ≡ false
    → lookup asked (sweep removable doomed m).1 ≡ lookup asked m
unfolding sweep lookup
sweep-lookup removable doomed asked [] h = refl
sweep-lookup removable doomed asked ((name, node) ∷ rest) h =
    elim (Bool-cases (not (is_directory node) && doomed name)) [
      | inl e ↦ elim (Bool-cases (removable name)) [
        | inl r ↦ rw (e, sweep, r, other e) (sweep-lookup removable doomed asked rest h)
        | inr r ↦ rw (e, sweep, r) refl
      ]
      | inr e ↦ rw (e, sweep, sweep-lookup removable doomed asked rest h) refl
    ]
  where
    other : (not (is_directory node) && doomed name) ≡ true → (name == asked) ≡ false
    other e = elim (Bool-cases (name == asked)) [
      | inr n ↦ n
      | inl n ↦
          let same : name ≡ asked = (==_iff name asked).0 n in
          absurd (ground (arith, e, ap doomed same, h))
    ]

pub is_referenced-insert :
    (id : Text) (e : Entry) (m : Map Entry)
    → e.body_present ≡ true
    → is_referenced (insert id e m) (body_name id) ≡ true
unfolding is_referenced insert
is_referenced-insert id e [] h = rw (h, ==_refl) refl
is_referenced-insert id e ((other, x) ∷ m) h = elim (Bool-cases (other == id)) [
  | inl s ↦ rw (s, is_referenced, h, ==_refl) refl
  | inr s ↦ rw (s, is_referenced, is_referenced-insert id e m h) (ground arith)
]

-- A directory after its orphans are gone.
abbrev pub cleaned : Map Entry → Disk → Disk
cleaned entries d = record d {
  blobs = (sweep (λ name. true) (is_orphan entries) d.blobs).1;
  others = (sweep (λ name. true) (λ name. has_prefix name (text ".cache-metadata-")) d.others).1;
}

reconcile-cleaned :
    (entries : Map Entry) (d : Disk) → reconcile healthy entries d ≡ (ok tt, cleaned entries d)
unfolding reconcile
reconcile-cleaned entries d =
    rw
      (
        reconcile,
        sweep-ok (is_orphan entries) d.blobs,
        sweep-ok (λ name. has_prefix name (text ".cache-metadata-")) d.others,
      )
      refl

-- The body of an entry is no orphan.
pub cleaned-lookup :
    (entries : Map Entry) (name : Text) (d : Disk)
    → is_referenced entries name ≡ true
    → lookup name (cleaned entries d).blobs ≡ lookup name d.blobs
cleaned-lookup entries name d r =
    sweep-lookup (λ n. true) (is_orphan entries) name d.blobs (unfold is_orphan in rw r refl)

module _ ⦃c : CidCodec⦄ (h : Hashes) where
  -- What was saved is read.
  reload-saved :
      (entries : Map Entry) (d : Disk)
      → AllAccepted h entries
      → d.metadata ≡ some (save entries)
      → reload h healthy d ≡ (ok entries, cleaned entries d)
  unfolding reload
  reload-saved entries d all m = rw (reload, read_saved, reconcile-cleaned entries d) refl
    where
      read_saved : read_metadata h healthy d.metadata ≡ ok entries
      read_saved = rw m (unfold read_metadata in load-save h entries all)

  -- The operation gets what was saved.
  pub with_state-saved :
      {A : Type 0} (entries : Map Entry) (op : Map Entry → Disk → Done A) (d : Disk)
      → AllAccepted h entries
      → d.metadata ≡ some (save entries)
      → with_state h healthy op d ≡ op entries (cleaned entries d)
  unfolding with_state
  with_state-saved entries op d all m =
      let saved = reload-saved entries d all m in
      rw (with_state, ap (λ p. p.0) saved) (ap (op entries) (ap (λ p. p.1) saved))
