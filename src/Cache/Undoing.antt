-- ===== src/Cache/Undoing.antt =====
-- putWithBody of cache/store.go, where the metadata was replaced and a later step of that failed.
use malt.Base.{
  ◌≡◌, refl, ap, ◌∙◌, inl, inr, true, none, some, Text, ok, err, Bool-cases, Map, lookup, insert,
  delete, lookup-delete, ==_refl, is_some,
}
use malt.Base.Durable.{replaced, failed_after_rename}
use malt.Cache.Types.{Bytes, Entry, Disk, Io, Outcome, file, io_failed, joined}
use malt.Cache.Disk.{body_name, save, write_body, write_metadata, replaceable}
use malt.Cache.Store.Locked.{Done}
use malt.Cache.Store.Bodies.{remove_body, undo_body, put_body, had_no_body}

module _ (io : Io) (id : Text) (e : Entry) (body : Bytes) (entries : Map Entry) (d : Disk) where
  abbrev staged : Disk
  staged = record d { blobs = insert (body_name id) (file body) d.blobs }

  write_body-staged :
      io.body_writing ≡ replaced
      → replaceable (lookup (body_name id) d.blobs) ≡ true
      → write_body io id body d ≡ (ok tt, staged)
  unfolding write_body
  write_body-staged b r = rw (write_body, r, b) refl

  write_metadata-late :
      io.writing ≡ failed_after_rename
      → write_metadata io (insert id e entries) staged
        ≡ (err io_failed, record staged { metadata = some (save (insert id e entries)) })
  unfolding write_metadata
  write_metadata-late w = rw (write_metadata, w) refl

  -- The directory with the new metadata, and without the body.
  abbrev late : Disk
  late = record staged { metadata = some (save (insert id e entries)) }

  abbrev lost : Disk
  lost = record late { blobs = delete (body_name id) staged.blobs }

  remove_body-lost : io.removed ≡ true → remove_body io id late ≡ (ok tt, lost)
  unfolding remove_body
  remove_body-lost g = elim (Bool-cases (is_some (lookup (body_name id) staged.blobs))) [
    | inl f ↦ rw (remove_body, f, g) refl
    | inr f ↦ rw (remove_body, f) refl
  ]

  -- What follows the writing of the body, and of the metadata.
  abbrev after_metadata : Outcome (Unit {0}) × Disk → Done Entry
  after_metadata written = elim (written.0) [
    | ok _ ↦ (ok e, written.1)
    | err failure ↦ undo_body io id (lookup id entries) written.1
  ]

  abbrev after_body : Outcome (Unit {0}) × Disk → Done Entry
  after_body staged = elim (staged.0) [
    | err failure ↦ (err failure, staged.1)
    | ok _ ↦ after_metadata (write_metadata io (insert id e entries) staged.1)
  ]

  abbrev after_removal : Outcome (Unit {0}) × Disk → Done Entry
  after_removal gone = elim (gone.0) [
    | ok _ ↦ (err io_failed, gone.1)
    | err failure ↦ (err (joined io_failed failure), gone.1)
  ]

  undo_body-lost :
      io.removed ≡ true
      → lookup id entries ≡ none
      → undo_body {A = Entry} io id (lookup id entries) late ≡ (err io_failed, lost)
  unfolding undo_body had_no_body
  undo_body-lost g n = rw n (ap after_removal (remove_body-lost g))

  put_body-lost :
      io.body_writing ≡ replaced
      → io.writing ≡ failed_after_rename
      → io.removed ≡ true
      → replaceable (lookup (body_name id) d.blobs) ≡ true
      → lookup id entries ≡ none
      → put_body io id e body entries d ≡ (err io_failed, lost)
  unfolding put_body
  put_body-lost b w g r n =
      ap after_body (write_body-staged b r)
      ∙ ap after_metadata (write_metadata-late w)
      ∙ undo_body-lost g n

  -- A put of an entry that was not there fails, leaves metadata that holds the entry, and leaves
  -- no file for its body, if the body was written and can be removed, and the replacement of the
  -- metadata failed after its rename.
  pub put_body-late_failure :
      io.body_writing ≡ replaced
      → io.writing ≡ failed_after_rename
      → io.removed ≡ true
      → replaceable (lookup (body_name id) d.blobs) ≡ true
      → lookup id entries ≡ none
      → let after = put_body io id e body entries d in
        (after.0 ≡ err io_failed)
        × (after.1.metadata ≡ some (save (insert id e entries)))
        × (lookup (body_name id) after.1.blobs ≡ none)
  put_body-late_failure b w g r n =
      let same = put_body-lost b w g r n in
      (
        ap (λ p. p.0) same,
        ap (λ p. p.1.metadata) same,
        ap (λ p. lookup (body_name id) p.1.blobs) same ∙ rw (lookup-delete, ==_refl) refl,
      )
