-- ===== src/Cache/Store/Locked.antt =====
-- What the methods of cache/store.go do under the lock.
use malt.Base.{
  ℕ, ◌-◌, ◌^◌, Bool, false, not, ◌&&◌, ◌||◌, Option, none, some, [], ◌∷◌, ltb, length, Text,
  text_eq, nat_eq, ◌==◌, ok, err, ◌>>=◌, ◌>>◌, refuse_if, or_fail, if◌then◌else◌, Map, lookup,
  insert,
}
use malt.Cache.Types.{
  ℤ, pos, negsuc, Bytes, State, unmaterialized_remote, verified_clean, local_dirty, pending_upload,
  candidate, conflicted, offline_only, stale, unknown, state_eq, int_eq, evidence_eq, Binding,
  VerificationEvidence, Entry, Outcome, Error, miss, corrupt, invalid_state, body_too_large,
  payload_mismatch, io_failed, joined, file, directory, Disk, Io, Hashes,
}
use malt.Cache.Store.Capture.{take}
use malt.Cache.Disk.{binding_id, is_local_body_state, negative, body_name, write_metadata}

-- What an operation under the lock leaves behind.
abbrev pub Done : Type 0 → Type 0
Done A = Outcome A × Disk

unfoldable pub allowed_transition : State → State → Bool
allowed_transition current next = current == next || elim current [
  | verified_clean ↦ next == stale
  | unmaterialized_remote ↦ next == stale
  | local_dirty ↦
      next == pending_upload || (next == offline_only || (next == conflicted || next == stale))
  | offline_only ↦
      next == pending_upload || (next == local_dirty || (next == conflicted || next == stale))
  | pending_upload ↦ next == candidate || (next == conflicted || next == stale)
  | candidate ↦
      next == pending_upload
      || (next == local_dirty || (next == offline_only || (next == conflicted || next == stale)))
  | conflicted ↦ next == local_dirty || (next == offline_only || next == stale)
  | stale ↦ false
  | unknown t ↦ false
]

unfoldable pub allowed_put : State → State → Bool
allowed_put current next =
    let puts = next == verified_clean || (next == local_dirty || next == offline_only) in
    current == next || elim current [ unmaterialized_remote ↦ puts | stale ↦ puts | _ ↦ false ]

unfoldable pub has_related_binding : Map Entry → Binding → Bool
has_related_binding [] b = false
has_related_binding ((id, e) ∷ rest) b =
    (e.binding.dataset_id == b.dataset_id
      && (e.binding.branch == b.branch && e.binding.cid == b.cid))
    || has_related_binding rest b

-- The entry is stored, and the metadata written.
unfoldable pub store_entry : {A : Type 0} → Io → Text → Entry → A → Map Entry → Disk → Done A
store_entry io id e a entries disk =
    let written = write_metadata io (insert id e entries) disk in
    (written.0 >>= λ _. ok a, written.1)

-- `withState(true, …)`: a change of the entries, then the metadata is written.
unfoldable pub commit :
    {A : Type 0} → Io → (Map Entry → Outcome (A × Map Entry)) → Map Entry → Disk → Done A
commit io op entries disk = elim (op entries) [
  | err e ↦ (err e, disk)
  | ok (a, new) ↦ let written = write_metadata io new disk in (written.0 >>= λ _. ok a, written.1)
]

abbrev pub remote_entry : ℕ → Binding → Entry
remote_entry now b = record {
  binding = b;
  state = unmaterialized_remote;
  verification = none;
  body_present = false;
  size = pos 0;
  updated_at = now;
}

-- An entry that holds its body still, in another state and without evidence.
abbrev pub moved : ℕ → State → Entry → Entry
moved now next e = record e { state = next; verification = none; updated_at = now }

-- What is found wrong with a body.
abbrev pub as_corrupt : {A : Type 0} → Outcome A → Outcome A
as_corrupt (ok a) = ok a
as_corrupt (err cause) = err (joined corrupt cause)

-- The bytes of a body; `irregular` is the error for a directory.
unfoldable pub body_file : Io → Error → Text → Disk → Outcome Bytes
unfolding body_name
body_file io irregular id disk =
    if not io.body_readable
    then err (joined corrupt io_failed)
    else elim (lookup (body_name id) disk.blobs) [
      | none ↦ err (joined corrupt io_failed)
      | some directory ↦ err irregular
      | some (file body) ↦ ok body
    ]

unfoldable pub mark_corrupt_locked :
    {A : Type 0} → Io → ℕ → Text → Entry → Error → Map Entry → Disk → Done A
mark_corrupt_locked io now id e cause entries disk =
    let written = write_metadata io (insert id (moved now stale e) entries) disk in
    elim (written.0) [
      | ok _ ↦ (err cause, written.1)
      | err failure ↦ (err (joined cause failure), written.1)
    ]

unfoldable pub above : ℤ → ℕ → Bool
above (pos n) limit = ltb limit n
above (negsuc n) limit = false

unfoldable pub open_bounded_local_body_locked : Io → Text → Entry → ℕ → Disk → Outcome Bytes
unfolding is_local_body_state negative body_file above
open_bounded_local_body_locked io id e max_bytes disk = do
  refuse_if (not (is_local_body_state e.state) || (not e.body_present || negative e.size))
      invalid_state
  refuse_if (above e.size max_bytes || above e.size (2 ^ 63 - 1)) body_too_large
  body ← body_file io corrupt id disk
  refuse_if (not (e.size == pos (length body))) corrupt
  ok body

unfoldable pub natural : ℤ → ℕ
natural (pos n) = n
natural (negsuc n) = 0

-- The sum is over the first `size` bytes of the file, and nothing may follow them.
unfoldable pub verify_local_stream : Hashes → Bytes → Text → ℕ → Outcome (Unit {0})
unfolding take
verify_local_stream h body payload size = do
  digest ← or_fail (h.sum_stream payload (take size body)) (joined corrupt io_failed)
  refuse_if (ltb (length body) size || not (digest == h.hash payload)) corrupt
  refuse_if (ltb size (length body)) corrupt

-- verifyPayloadCID
unfoldable pub verify_payload_cid : Hashes → Text → Bytes → Outcome (Unit {0})
verify_payload_cid h payload body = do
  actual ← or_fail (h.sum payload body) payload_mismatch
  refuse_if (not (actual == payload)) payload_mismatch

unfoldable pub same_evidence : Option VerificationEvidence → VerificationEvidence → Bool
same_evidence none rejected = false
same_evidence (some held) rejected = held == rejected

module _ (h : Hashes) where
  unfoldable pub record_remote_locked : ℕ → Binding → Map Entry → Outcome (Entry × Map Entry)
  record_remote_locked now b entries = elim (lookup (binding_id h b) entries) [
    | some existing ↦ ok (existing, entries)
    | none ↦ ok (remote_entry now b, insert (binding_id h b) (remote_entry now b) entries)
  ]

  unfoldable pub transition_locked : ℕ → Binding → State → Map Entry → Outcome (Entry × Map Entry)
  unfolding allowed_transition
  transition_locked now b next entries = do
    e ← or_fail (lookup (binding_id h b) entries) miss
    refuse_if (not (allowed_transition e.state next)) invalid_state
    let changed = record e {
      state = next;
      verification = if next == verified_clean then e.verification else none;
      updated_at = now;
    }
    ok (changed, insert (binding_id h b) changed entries)

  -- invalidate: evidence that was replaced in the meantime is left alone
  unfoldable pub invalidate_locked :
      ℕ → Binding → VerificationEvidence → Map Entry → Outcome (Unit {0} × Map Entry)
  unfolding same_evidence
  invalidate_locked now b rejected entries = elim (lookup (binding_id h b) entries) [
    | none ↦ err miss
    | some e ↦ ok (
      tt,
      (if same_evidence e.verification rejected
          then insert (binding_id h b) (moved now stale e) entries
          else entries),
    )
  ]
