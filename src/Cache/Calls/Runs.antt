-- ===== src/Cache/Calls/Runs.antt =====
-- Each method of cache/store.go is a series of the abstract changes of metadata.json.
use malt.Base.{
  ◌≡◌, inl, inr, ℕ, Bool, true, Option, text_eq, Bool-cases, ok, err, Result-cases, Map,
}
use malt.Base.Cids.{CidCodec}
use malt.Cache.Types.{
  Bytes, State, Binding, VerificationEvidence, Entry, Metadata, Outcome, Disk, Io, Hashes,
}
use malt.Cache.Disk.{normalize_binding, is_local_body_state}
use malt.Cache.Store.Locked.{Done}
use malt.Cache.Store.Methods.{
  record_remote, put_verified, put_local, check_verified, check_local, invalidate, reverify,
  check_verifier, read_verified, look, transition, reconcile_local_state_bounded, check_local_state,
  remove, inspect, list, list_locked, read_local_bounded, verify_local, read_local_range,
}
use malt.Cache.Calls.{
  Call, inspecting, reading_local, verifying_local, reading_range, listing, recording, moving,
  removing, reconciling, reading_verified, putting_verified, putting_local, verified, local,
  Becomes, unchanged, changed, perform,
}
use malt.Cache.Calls.Effects.{with_state-Becomes, call-Becomes, commit-IsLegal}
use malt.Cache.Calls.Legal.{
  record_remote-Change, transition-Change, invalidate-Change, read_verified_locked-IsLegal,
  put_with_body-IsLegal, reconcile_local-IsLegal, remove_locked-IsLegal,
}

module _ ⦃c : CidCodec⦄ (h : Hashes) (now : ℕ) (io : Io) where
  -- A call that looks and stores nothing.
  look-Becomes :
      (made : Call) {A : Type 0} (b : Binding) (op : Binding → Map Entry → Disk → Outcome A)
      (d : Disk)
      → Becomes h now made d.metadata (look h io b op d).1.metadata
  unfolding look
  look-Becomes made b op d =
      call-Becomes h now made io (normalize_binding b) _ (λ n _ entries d _. unchanged d.metadata) d

  -- The two accesses of ReadVerified, one after the other.
  Becomes-trans :
      (made : Call) (first middle last : Option Metadata)
      → Becomes h now made first middle
      → Becomes h now made middle last
      → Becomes h now made first last
  Becomes-trans made first middle last (unchanged _) later = later
  Becomes-trans made first middle last (changed _ next _ entries l change rest) later =
      changed first next last entries l change (Becomes-trans made next middle last rest later)

  reverify-Becomes :
      (made : Call) (again : Io) (verifier : Binding → VerificationEvidence → Bool) (b : Binding)
      (first : Option Metadata) (done : Done (Bytes × VerificationEvidence × Entry))
      → Becomes h now made first done.1.metadata
      → Becomes h now made first (reverify h again now verifier b done).1.metadata
  unfolding reverify invalidate
  reverify-Becomes made again verifier b first (err _, d) before = before
  reverify-Becomes made again verifier b first (ok (body, evidence, e), d) before =
      let dropped = invalidate h again now b evidence d in
      let after =
        with_state-Becomes h now made again _
          (commit-IsLegal h now made again _ (invalidate-Change h now io made b evidence)) d in
      elim (Bool-cases (verifier b evidence)) [
        | inl v ↦ rw (v, reverify) before
        | inr v ↦ elim (Result-cases dropped.0) [
          | inl (_, r) ↦ rw (v, reverify, r) (Becomes-trans made first _ _ before after)
          | inr (_, r) ↦ rw (v, reverify, r) (Becomes-trans made first _ _ before after)
        ]
      ]

  read_verified-Becomes :
      (made : Call) (again : Io) (o : Option (Binding → VerificationEvidence → Bool)) (b : Binding)
      (d : Disk)
      → Becomes h now made d.metadata (read_verified h io again now o b d).1.metadata
  unfolding read_verified
  read_verified-Becomes made again o b d = elim (Result-cases (check_verifier h o b)) [
    | inr (_, r) ↦ rw (r, read_verified) (unchanged d.metadata)
    | inl ((v, n), r) ↦
        rw (r, read_verified)
          (reverify-Becomes made again v n d.metadata _
            (with_state-Becomes h now made io _ (read_verified_locked-IsLegal h now io made n) d))
  ]

  check_local_state-is_local :
      (b n : Binding) (next : State)
      → check_local_state h b next ≡ ok n
      → is_local_body_state next ≡ true
  unfolding check_local_state
  check_local_state-is_local b n next r = elim (Result-cases (normalize_binding b)) [
    | inr (_, f) ↦ absurd (cc (rw (f, check_local_state) at r))
    | inl (x, f) ↦ elim (Bool-cases (is_local_body_state next)) [
      | inl g ↦ g
      | inr g ↦ absurd (cc (rw (f, check_local_state, g) at r))
    ]
  ]

  -- Every method of the cache, whatever fails in it, changes the metadata only by a series of
  -- abstract changes, each made to entries that were loaded: they are saved as they are, one is
  -- deleted, or one is stored which is a new remote one, a checked put, a legal transition, an
  -- aligned local body, or an entry that became stale.
  pub perform-Becomes :
      (made : Call) (d : Disk) → Becomes h now made d.metadata (perform h io now made d).metadata
  unfolding perform record_remote put_verified put_local transition remove inspect list
      read_local_bounded verify_local read_local_range reconcile_local_state_bounded
  perform-Becomes (recording b) d =
      call-Becomes h now (recording b) io (normalize_binding b) _
        (λ n r. commit-IsLegal h now (recording b) io _ (record_remote-Change h now io b n r)) d
  perform-Becomes (inspecting b) d = look-Becomes _ b _ d
  perform-Becomes (removing b) d =
      call-Becomes h now (removing b) io (normalize_binding b) _
        (λ n r. remove_locked-IsLegal h now io (removing b) n) d
  perform-Becomes (putting_verified b body v) d =
      call-Becomes h now (putting_verified b body v) io (check_verified h now b body v) _
        (λ e r. put_with_body-IsLegal h now io _ e body (λ entries. verified b body v e r)) d
  perform-Becomes (putting_local b body s) d =
      call-Becomes h now (putting_local b body s) io (check_local h now b body s) _
        (λ e r. put_with_body-IsLegal h now io _ e body (λ entries. local b body s e r)) d
  perform-Becomes (reading_verified again o b) d = read_verified-Becomes _ again o b d
  perform-Becomes (reading_local b limit) d = look-Becomes _ b _ d
  perform-Becomes (verifying_local b limit) d = look-Becomes _ b _ d
  perform-Becomes (reading_range chunks b offset count limit) d = look-Becomes _ b _ d
  perform-Becomes (moving b next) d =
      call-Becomes h now (moving b next) io (normalize_binding b) _
        (λ n r. commit-IsLegal h now (moving b next) io _ (transition-Change h now io b n next)) d
  perform-Becomes (reconciling b next limit) d =
      call-Becomes h now (reconciling b next limit) io (check_local_state h b next) _
        (λ n r.
          reconcile_local-IsLegal h now io b n next limit (check_local_state-is_local b n next r))
        d
  perform-Becomes listing d =
      with_state-Becomes h now listing io (list_locked h) (λ entries d l. unchanged d.metadata) d
