-- ===== src/Cache/Store/Methods.antt =====
-- The public methods of cache/store.go.
use malt.Base.{
  ℕ, ◌-◌, ◌^◌, Bool, true, not, ◌&&◌, ◌||◌, Option, none, some, List, [], length, map, sort,
  text_ltb, text_eq, nat_eq, ◌==◌, ok, err, ◌>>=◌, ◌>>◌, refuse_if, or_fail, if◌then◌else◌, Map,
  trim_space, valid_utf8,
}
use malt.Base.Cids.{CidCodec}
use malt.Cache.Types.{
  pos, Bytes, State, Metadata, verified_clean, local_dirty, offline_only, state_eq, Binding,
  VerificationEvidence, Entry, Outcome, invalid_state, incomplete_evidence, no_verifier, unproved,
  io_failed, joined, Disk, Io, Hashes,
}
use malt.Cache.Disk.{binding_id, normalize_binding, is_local_body_state, load, reconcile}
use malt.Cache.Store.Locked.{
  Done, commit, verify_payload_cid, record_remote_locked, transition_locked, invalidate_locked,
}
use malt.Cache.Store.Bodies.{
  put_with_body, read_verified_locked, read_local_locked, verify_local_locked,
  read_local_range_locked, reconcile_local_locked, inspect_locked, remove_locked,
}

-- Checks that are made before the lock is taken.
unfoldable pub check_evidence : VerificationEvidence → Outcome (Unit {0})
check_evidence v =
    refuse_if
      (v.profile == [] || (not (valid_utf8 v.profile) || (v.evidence == [] || v.verified_at == 0)))
      incomplete_evidence

abbrev pub verified_entry : ℕ → Binding → Bytes → VerificationEvidence → Entry
verified_entry now b body v = record {
  binding = b;
  state = verified_clean;
  verification = some v;
  body_present = true;
  size = pos (length body);
  updated_at = now;
}

abbrev pub local_entry : ℕ → Binding → Bytes → State → Entry
local_entry now b body state = record {
  binding = b;
  state = state;
  verification = none;
  body_present = true;
  size = pos (length body);
  updated_at = now;
}

module _ ⦃c : CidCodec⦄ (h : Hashes) where
  -- reloadLocked up to the removal of orphans; a file that is not there is no failure
  unfoldable pub read_metadata : Io → Option Metadata → Outcome (Map Entry)
  unfolding load
  read_metadata io none = load h none
  read_metadata io (some next) = if io.readable then load h (some next) else err io_failed

  -- reloadLocked
  unfoldable pub reload : Io → Disk → Done (Map Entry)
  unfolding read_metadata reconcile
  reload io disk = elim (read_metadata io disk.metadata) [
    | err failure ↦ (err failure, disk)
    | ok entries ↦ let clean = reconcile io entries disk in (clean.0 >>= λ _. ok entries, clean.1)
  ]

  unfoldable pub with_state : {A : Type 0} → Io → (Map Entry → Disk → Done A) → Disk → Done A
  unfolding reload
  with_state io op disk =
      if not io.prepared then (err io_failed, disk) else elim ((reload io disk).0) [
        | err failure ↦ (err failure, (reload io disk).1)
        | ok entries ↦ op entries (reload io disk).1
      ]

  -- A method: what it checks first, then its operation.
  unfoldable pub call :
      {X A : Type 0} → Io → Outcome X → (X → Map Entry → Disk → Done A) → Disk → Done A
  unfolding with_state
  call io (err failure) op disk = (err failure, disk)
  call io (ok x) op disk = with_state io (op x) disk

  unfoldable pub record_remote : Io → ℕ → Binding → Disk → Done Entry
  record_remote io now b =
      call io (normalize_binding b) (λ b. commit io (record_remote_locked h now b))

  unfoldable pub check_verified : ℕ → Binding → Bytes → VerificationEvidence → Outcome Entry
  unfolding check_evidence
  check_verified now b body v = do
    normal ← normalize_binding b
    let evidence = record v { profile = trim_space v.profile }
    check_evidence evidence
    verify_payload_cid h normal.cid body
    ok (verified_entry now normal body evidence)

  unfoldable pub put_verified : Io → ℕ → Binding → Bytes → VerificationEvidence → Disk → Done Entry
  unfolding check_verified
  put_verified io now b body v =
      call io (check_verified now b body v) (λ e. put_with_body h io e body)

  unfoldable pub check_local : ℕ → Binding → Bytes → State → Outcome Entry
  check_local now b body state = do
    normal ← normalize_binding b
    refuse_if (not (state == local_dirty) && not (state == offline_only)) invalid_state
    verify_payload_cid h normal.cid body
    ok (local_entry now normal body state)

  unfoldable pub put_local : Io → ℕ → Binding → Bytes → State → Disk → Done Entry
  unfolding check_local
  put_local io now b body state =
      call io (check_local now b body state) (λ e. put_with_body h io e body)

  unfoldable pub invalidate : Io → ℕ → Binding → VerificationEvidence → Disk → Done (Unit {0})
  invalidate io now b rejected = with_state io (commit io (invalidate_locked h now b rejected))

  -- The verifier looks at the evidence outside the lock; `again` is the second access to the disk.
  unfoldable pub reverify :
      Io
      → ℕ
      → (Binding → VerificationEvidence → Bool)
      → Binding
      → Done (Bytes × VerificationEvidence × Entry)
      → Done (Bytes × Entry)
  unfolding invalidate
  reverify again now verifier b (err failure, disk) = (err failure, disk)
  reverify again now verifier b (ok (body, evidence, e), disk) =
      let dropped = invalidate again now b evidence disk in
      if verifier b evidence then (ok (body, e), disk) else elim (dropped.0) [
        | ok _ ↦ (err unproved, dropped.1)
        | err failure ↦ (err (joined unproved failure), dropped.1)
      ]

  unfoldable pub check_verifier : {V : Type 0} → Option V → Binding → Outcome (V × Binding)
  check_verifier verifier b = do
    v ← or_fail verifier no_verifier
    normal ← normalize_binding b
    ok (v, normal)

  unfoldable pub read_verified :
      Io
      → Io
      → ℕ
      → Option (Binding → VerificationEvidence → Bool)
      → Binding
      → Disk
      → Done (Bytes × Entry)
  unfolding reverify check_verifier
  read_verified io again now verifier b disk = elim (check_verifier verifier b) [
    | err failure ↦ (err failure, disk)
    | ok (v, normal) ↦
        reverify again now v normal (with_state io (read_verified_locked h io now normal) disk)
  ]

  -- A method that leaves the metadata and the bodies alone.
  unfoldable pub look :
      {A : Type 0} → Io → Binding → (Binding → Map Entry → Disk → Outcome A) → Disk → Done A
  unfolding call
  look io b op =
      call io (normalize_binding b) (λ normal entries disk. (op normal entries disk, disk))

  unfoldable pub read_local_bounded : Io → Binding → ℕ → Disk → Done (Bytes × Entry)
  unfolding look
  read_local_bounded io b max_bytes = look io b (λ b. read_local_locked h io b max_bytes)

  unfoldable pub read_local : Io → Binding → Disk → Done (Bytes × Entry)
  unfolding read_local_bounded
  read_local io b = read_local_bounded io b (2 ^ 63 - 1)

  unfoldable pub verify_local : Io → Binding → ℕ → Disk → Done Entry
  unfolding look
  verify_local io b max_bytes = look io b (λ b. verify_local_locked h io b max_bytes)

  unfoldable pub read_local_range :
      Io → (Bytes → List Bytes) → Binding → ℕ → ℕ → ℕ → Disk → Done (Bytes × Entry)
  unfolding look
  read_local_range io chunks b offset count max_bytes =
      look io b (λ b. read_local_range_locked h io chunks b offset count max_bytes)

  unfoldable pub transition : Io → ℕ → Binding → State → Disk → Done Entry
  transition io now b next =
      call io (normalize_binding b) (λ b. commit io (transition_locked h now b next))

  unfoldable pub check_local_state : Binding → State → Outcome Binding
  check_local_state b next = do
    normal ← normalize_binding b
    refuse_if (not (is_local_body_state next)) invalid_state
    ok normal

  unfoldable pub reconcile_local_state_bounded : Io → ℕ → Binding → State → ℕ → Disk → Done Entry
  unfolding check_local_state
  reconcile_local_state_bounded io now b next max_bytes =
      call io (check_local_state b next) (λ b. reconcile_local_locked h io now b next max_bytes)

  unfoldable pub inspect : Io → Binding → Disk → Done Entry
  unfolding look
  inspect io b = look io b (λ b entries disk. inspect_locked h b entries)

  unfoldable pub by_id : Entry → Entry → Bool
  by_id a b = text_ltb (binding_id h a.binding) (binding_id h b.binding)

  unfoldable pub list_locked : Map Entry → Disk → Done (List Entry)
  unfolding by_id
  list_locked entries disk = (ok (sort by_id (map (λ p. p.1) entries)), disk)

  unfoldable pub list : Io → Disk → Done (List Entry)
  unfolding list_locked
  list io = with_state io list_locked

  unfoldable pub remove : Io → Binding → Disk → Done (Unit {0})
  remove io b = call io (normalize_binding b) (λ b. remove_locked h io b)
