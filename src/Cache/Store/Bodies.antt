-- ===== src/Cache/Store/Bodies.antt =====
-- What the methods of cache/store.go that touch a body do under the lock.
use malt.Base.{
  ℕ, ◌-◌, ◌^◌, Bool, true, not, ◌&&◌, ◌||◌, Option, none, some, List, ltb, length, Text, nat_eq,
  ◌==◌, ok, err, ◌>>=◌, ◌>>◌, refuse_if, or_fail, if◌then◌else◌, Map, lookup, insert, delete,
  is_some,
}
use malt.Cache.Types.{
  pos, Bytes, State, verified_clean, unmaterialized_remote, stale, state_eq, int_eq, Binding,
  VerificationEvidence, Entry, Outcome, miss, binding_mismatch, not_verified, corrupt,
  invalid_state, body_too_large, io_failed, joined, Disk, Io, Hashes,
}
use malt.Cache.Disk.{binding_id, body_name, is_local_body_state, write_metadata, write_body}
use malt.Cache.Store.Capture.{new_capture, capture_all, take, wanted_length}
use malt.Cache.Store.Locked.{
  as_corrupt, Done, allowed_put, has_related_binding, store_entry, moved, body_file,
  mark_corrupt_locked, open_bounded_local_body_locked, natural, verify_local_stream,
  verify_payload_cid,
}

-- What `os.Remove` of a body leaves; a name that is not there is no failure.
unfoldable pub remove_body : Io → Text → Disk → Outcome (Unit {0}) × Disk
unfolding body_name
remove_body io id disk =
    if is_some (lookup (body_name id) disk.blobs) && not io.removed
    then (err io_failed, disk)
    else (ok tt, record disk { blobs = delete (body_name id) disk.blobs })

unfoldable pub may_put : Option Entry → State → Bool
unfolding allowed_put
may_put none next = true
may_put (some existing) next = allowed_put existing.state next

-- !existed || !existing.BodyPresent
unfoldable pub had_no_body : Option Entry → Bool
had_no_body none = true
had_no_body (some existing) = not existing.body_present

-- The metadata could not be written: a body that was not there before is removed.
unfoldable pub undo_body : {A : Type 0} → Io → Text → Option Entry → Disk → Done A
unfolding had_no_body remove_body
undo_body io id existing disk =
    let gone = remove_body io id disk in
    if had_no_body existing
    then elim (gone.0) [
      | ok _ ↦ (err io_failed, gone.1)
      | err failure ↦ (err (joined io_failed failure), gone.1)
    ]
    else (err io_failed, disk)

unfoldable pub put_body : Io → Text → Entry → Bytes → Map Entry → Disk → Done Entry
unfolding undo_body
put_body io id e body entries disk =
    let staged = write_body io id body disk in
    let written = write_metadata io (insert id e entries) staged.1 in
    elim (staged.0) [
      | err failure ↦ (err failure, staged.1)
      | ok _ ↦ elim (written.0) [
        | ok _ ↦ (ok e, written.1)
        | err failure ↦ undo_body io id (lookup id entries) written.1
      ]
    ]

unfoldable pub put_with_body : Hashes → Io → Entry → Bytes → Map Entry → Disk → Done Entry
unfolding may_put put_body
put_with_body h io e body entries disk =
    let id = binding_id h e.binding in
    if may_put (lookup id entries) e.state
    then put_body io id e body entries disk
    else (err invalid_state, disk)

-- The evidence of a verified entry.
unfoldable pub clean_evidence : Entry → Outcome VerificationEvidence
clean_evidence e = do
  refuse_if (not (e.state == verified_clean)) not_verified
  or_fail e.verification not_verified

-- The body of a verified entry; every failure shows that the entry is corrupt.
unfoldable pub clean_body : Hashes → Io → Text → Text → Entry → Disk → Outcome Bytes
clean_body h io id payload e disk = do
  refuse_if (not e.body_present) corrupt
  body ← body_file io (joined corrupt io_failed) id disk
  refuse_if (not (e.size == pos (length body))) corrupt
  as_corrupt (verify_payload_cid h payload body)
  ok body

module _ (h : Hashes) where
  unfoldable pub read_clean_locked :
      Io → ℕ → Binding → Entry → Map Entry → Disk → Done (Bytes × VerificationEvidence × Entry)
  unfolding clean_evidence clean_body
  read_clean_locked io now b e entries disk =
      let id = binding_id h b in
      elim (clean_evidence e) [
        | err failure ↦ (err failure, disk)
        | ok evidence ↦ elim (clean_body h io id b.cid e disk) [
          | ok body ↦ (ok (body, evidence, e), disk)
          | err cause ↦ mark_corrupt_locked io now id e cause entries disk
        ]
      ]

  unfoldable pub read_verified_locked :
      Io → ℕ → Binding → Map Entry → Disk → Done (Bytes × VerificationEvidence × Entry)
  unfolding read_clean_locked has_related_binding
  read_verified_locked io now b entries disk = elim (lookup (binding_id h b) entries) [
    | some e ↦ read_clean_locked io now b e entries disk
    | none ↦ (err (if has_related_binding entries b then binding_mismatch else miss), disk)
  ]

  unfoldable pub read_local_locked : Io → Binding → ℕ → Map Entry → Disk → Outcome (Bytes × Entry)
  unfolding open_bounded_local_body_locked verify_payload_cid
  read_local_locked io b max_bytes entries disk = do
    e ← or_fail (lookup (binding_id h b) entries) miss
    refuse_if
        (e.state == verified_clean
          || (e.state == unmaterialized_remote || (e.state == stale || not e.body_present)))
        invalid_state
    body ← open_bounded_local_body_locked io (binding_id h b) e max_bytes disk
    as_corrupt (verify_payload_cid h b.cid body)
    ok (body, e)

  -- The body of an entry that was found, once its stream was verified.
  unfoldable pub stream_entry : Io → Binding → ℕ → Entry → Disk → Outcome (Bytes × Entry)
  unfolding open_bounded_local_body_locked verify_local_stream natural
  stream_entry io b max_bytes e disk = do
    body ← open_bounded_local_body_locked io (binding_id h b) e max_bytes disk
    verify_local_stream h body e.binding.cid (natural e.size)
    ok (body, e)

  unfoldable pub verified_stream : Io → Binding → ℕ → Map Entry → Disk → Outcome (Bytes × Entry)
  unfolding stream_entry
  verified_stream io b max_bytes entries disk = do
    e ← or_fail (lookup (binding_id h b) entries) miss
    stream_entry io b max_bytes e disk

  unfoldable pub verify_local_locked : Io → Binding → ℕ → Map Entry → Disk → Outcome Entry
  unfolding verified_stream
  verify_local_locked io b max_bytes entries disk = do
    (body, e) ← verified_stream io b max_bytes entries disk
    ok e

  -- `chunks` is how the reads of the stream deliver it.
  unfoldable pub range_file :
      (Bytes → List Bytes) → ℕ → ℕ → ℕ → Bytes → Entry → Outcome (Bytes × Entry)
  unfolding wanted_length capture_all
  range_file chunks offset count size file e = do
    let wanted = wanted_length offset count size
    refuse_if (ltb (2 ^ 63 - 1) wanted) body_too_large
    capture ← capture_all (new_capture offset wanted) (chunks (take size file))
    verify_local_stream h file e.binding.cid size
    refuse_if (not (capture.copied == length capture.body)) corrupt
    ok (capture.body, e)

  unfoldable pub range_entry :
      Io → (Bytes → List Bytes) → Binding → ℕ → ℕ → ℕ → Entry → Disk → Outcome (Bytes × Entry)
  unfolding range_file
  range_entry io chunks b offset count max_bytes e disk = do
    file ← open_bounded_local_body_locked io (binding_id h b) e max_bytes disk
    range_file chunks offset count (natural e.size) file e

  unfoldable pub read_local_range_locked :
      Io → (Bytes → List Bytes) → Binding → ℕ → ℕ → ℕ → Map Entry → Disk → Outcome (Bytes × Entry)
  unfolding range_entry
  read_local_range_locked io chunks b offset count max_bytes entries disk = do
    e ← or_fail (lookup (binding_id h b) entries) miss
    range_entry io chunks b offset count max_bytes e disk

  -- The entry that is to be aligned, with its body checked.
  unfoldable pub check_reconcile : Io → Binding → ℕ → Map Entry → Disk → Outcome Entry
  unfolding stream_entry is_local_body_state
  check_reconcile io b max_bytes entries disk = do
    e ← or_fail (lookup (binding_id h b) entries) miss
    refuse_if (not (is_local_body_state e.state) || not e.body_present) invalid_state
    _ ← stream_entry io b max_bytes e disk
    ok e

  unfoldable pub reconcile_local_locked :
      Io → ℕ → Binding → State → ℕ → Map Entry → Disk → Done Entry
  unfolding check_reconcile store_entry
  reconcile_local_locked io now b next max_bytes entries disk =
      elim (check_reconcile io b max_bytes entries disk) [
        | err failure ↦ (err failure, disk)
        | ok e ↦ store_entry io (binding_id h b) (moved now next e) (moved now next e) entries disk
      ]

  unfoldable pub inspect_locked : Binding → Map Entry → Outcome Entry
  inspect_locked b entries = or_fail (lookup (binding_id h b) entries) miss

  unfoldable pub remove_locked : Io → Binding → Map Entry → Disk → Done (Unit {0})
  unfolding remove_body
  remove_locked io b entries disk =
      let id = binding_id h b in
      let gone = remove_body io id disk in
      if not (is_some (lookup id entries)) then (err miss, disk) else elim (gone.0) [
        | err failure ↦ (err failure, gone.1)
        | ok _ ↦ write_metadata io (delete id entries) gone.1
      ]
