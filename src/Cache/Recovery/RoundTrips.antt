-- ===== src/Cache/Recovery/RoundTrips.antt =====
-- Reading after a put that succeeded, in cache/store.go.
use mathlib.Core.Path.{subst}
use malt.Base.{
  ◌≡◌, ◌≢◌, refl, sym, ap, ◌∙◌, ◌⊎◌, inl, inr, ℕ, ◌≤◌, ◌<◌, ◌-◌, ◌^◌, arith, Bool, true, false, not,
  ◌||◌, some, text_eq, length, ◌==◌, ==_refl, ltb, ok, Result-cases, Map, insert,
  lookup-insert_self, trim_space,
}
use malt.Base.Cids.{CidCodec}
use malt.Cache.Types.{
  joined, io_failed, corrupt, Bytes, State, verified_clean, unmaterialized_remote, stale,
  local_dirty, offline_only, Binding, VerificationEvidence, Entry, Disk, Io, Hashes, int_eq,
  state_eq, pos, State-discrete,
}
use malt.Cache.Disk.{binding_id, normalize_binding, is_local_body_state, negative}
use malt.Cache.Store.Locked.{
  Done, verify_payload_cid, body_file, open_bounded_local_body_locked, above,
}
use malt.Cache.Store.Bodies.{
  put_with_body, clean_evidence, clean_body, read_clean_locked, read_verified_locked,
  read_local_locked,
}
use malt.Cache.Store.Methods.{
  with_state, call, put_verified, put_local, read_verified, read_local_bounded, look, reverify,
  check_verifier, check_verified, check_local, verified_entry, local_entry,
}
use malt.Cache.Calls.{putting_verified, putting_local, verified, local}
use malt.Cache.Calls.Checks.{check_verified-made, check_local-made}
use malt.Cache.Recovery.{healthy, cleaned, with_state-saved}
use malt.Cache.Recovery.Puts.{IsStored, put-IsStored, stored-body_file}

module _ (h : Hashes) (now : ℕ) (n : Binding) (body : Bytes) where
  -- The entry that PutVerified made is read under the lock.
  read_verified_locked-verified_entry :
      (made : ℕ) (v : VerificationEvidence) (entries : Map Entry) (d : Disk)
      → body_file healthy (joined corrupt io_failed) (binding_id h n) d ≡ ok body
      → verify_payload_cid h n.cid body ≡ ok tt
      → read_verified_locked h healthy now n
          (insert (binding_id h n) (verified_entry made n body v) entries)
          d
        ≡ (ok (body, v, verified_entry made n body v), d)
  unfolding read_verified_locked read_clean_locked clean_evidence clean_body State-discrete
  read_verified_locked-verified_entry made v entries d found sum =
      rw
        (
          read_verified_locked,
          lookup-insert_self (binding_id h n) (verified_entry made n body v) entries,
          read_clean_locked,
          clean_body,
          found,
          ==_refl (pos (length body)),
          sum,
        )
        refl

  -- The entry that PutLocal made is read under the lock.
  read_local_locked-local_entry :
      (made limit : ℕ) (s : State) (entries : Map Entry) (d : Disk)
      → (s ≡ local_dirty) ⊎ (s ≡ offline_only)
      → length body ≤ limit
      → length body < 2 ^ 63
      → body_file healthy corrupt (binding_id h n) d ≡ ok body
      → verify_payload_cid h n.cid body ≡ ok tt
      → read_local_locked h healthy n limit
          (insert (binding_id h n) (local_entry made n body s) entries)
          d
        ≡ ok (body, local_entry made n body s)
  unfolding read_local_locked
  read_local_locked-local_entry made limit s entries d kind fits small found sum =
      rw
        (
          read_local_locked,
          lookup-insert_self (binding_id h n) (local_entry made n body s) entries,
          plain s kind,
          opens s kind,
          sum,
        )
        refl
    where
      plain :
          (s : State)
          → (s ≡ local_dirty) ⊎ (s ≡ offline_only)
          → (s == verified_clean || (s == unmaterialized_remote || (s == stale || not true)))
            ≡ false
      plain s (inl e) = rw e (unfold State-discrete in refl)
      plain s (inr e) = rw e (unfold State-discrete in refl)

      is_local : (s : State) → (s ≡ local_dirty) ⊎ (s ≡ offline_only) → is_local_body_state s ≡ true
      is_local s (inl e) = rw e (unfold is_local_body_state in refl)
      is_local s (inr e) = rw e (unfold is_local_body_state in refl)

      opens :
          (s : State)
          → (s ≡ local_dirty) ⊎ (s ≡ offline_only)
          → open_bounded_local_body_locked healthy
              (binding_id h n)
              (local_entry made n body s)
              limit
              d
            ≡ ok body
      opens s kind =
          let within : (ltb limit (length body) || ltb (2 ^ 63 - 1) (length body)) ≡ false =
            ground arith in
          (unfold open_bounded_local_body_locked negative above in
            rw (is_local s kind, within, found, ==_refl (pos (length body))) refl)

module _ ⦃c : CidCodec⦄ (h : Hashes) (io : Io) (now : ℕ) (b : Binding) (body : Bytes) where
  -- Reading from a directory in which the verified entry is stored.
  read_stored :
      (n : Binding) (v : VerificationEvidence) (again : Io) (later : ℕ)
      (verifier : Binding → VerificationEvidence → Bool) (d : Disk)
      → normalize_binding b ≡ ok n
      → verify_payload_cid h n.cid body ≡ ok tt
      → verifier n v ≡ true
      → IsStored h (verified_entry now n body v) body d
      → (read_verified h healthy again later (some verifier) b d).0
        ≡ ok (body, verified_entry now n body v)
  unfolding read_verified check_verifier reverify
  read_stored n v again later verifier d normal sum accepts i =
      let e = verified_entry now n body v in
      let entries = insert (binding_id h n) e i.entries in
      let run : with_state h healthy (read_verified_locked h healthy later n) d
          ≡ (ok (body, v, e), cleaned entries d) =
        with_state-saved h entries (read_verified_locked h healthy later n) d i.accepted i.metadata
        ∙ read_verified_locked-verified_entry h later n body now v i.entries (cleaned entries d)
            (stored-body_file h (joined corrupt io_failed) e body i.entries d refl i.blob) sum in
      rw (read_verified, normal)
        (ap (λ p. (reverify h again later verifier n p).0) run ∙ rw accepts refl)

  -- After a PutVerified that succeeded at a time that is not zero, a ReadVerified of the same
  -- binding in which nothing fails and whose verifier accepts the trimmed evidence returns the
  -- body and the entry that were put.
  pub read_verified-put_verified :
      (v : VerificationEvidence) (again : Io) (later : ℕ)
      (verifier : Binding → VerificationEvidence → Bool) (d : Disk) (e : Entry)
      → now ≢ 0
      → (put_verified h io now b body v d).0 ≡ ok e
      → verifier e.binding (record v { profile = trim_space v.profile }) ≡ true
      → (read_verified h healthy again later
          (some verifier)
          b
          (put_verified h io now b body v d).1).0
        ≡ ok (body, e)
  unfolding put_verified call
  read_verified-put_verified v again later verifier d e nonzero r accepts =
      elim (Result-cases (check_verified h now b body v)) [
        | inr (_, f) ↦ absurd (cc (rw (put_verified, call, f) at r))
        | inl (x, f) ↦
            let (n, normal, evidence, sum, same) = check_verified-made h now b body v x f in
            let trimmed = record v { profile = trim_space v.profile } in
            let (kept, i) =
              put-IsStored h io now (putting_verified b body v) x e body d nonzero
                (λ entries. verified b body v x f) (rw (put_verified, call, f) at r) in
            let whole = same ∙ kept in
            rw (put_verified, call, f)
              (read_stored n trimmed again later verifier _ normal sum
                  (subst (λ y. verifier y.binding trimmed ≡ true) (sym whole) accepts)
                  (subst (λ y. IsStored h y body (with_state h io (put_with_body h io x body) d).1)
                    (sym same) i)
                ∙ ap (λ y. ok (body, y)) whole)
      ]

  -- Reading from a directory in which the local entry is stored.
  read_stored_local :
      (n : Binding) (s : State) (limit : ℕ) (d : Disk)
      → normalize_binding b ≡ ok n
      → verify_payload_cid h n.cid body ≡ ok tt
      → (s ≡ local_dirty) ⊎ (s ≡ offline_only)
      → length body ≤ limit
      → length body < 2 ^ 63
      → IsStored h (local_entry now n body s) body d
      → (read_local_bounded h healthy b limit d).0 ≡ ok (body, local_entry now n body s)
  unfolding read_local_bounded look call
  read_stored_local n s limit d normal sum kind fits small i =
      let e = local_entry now n body s in
      let entries = insert (binding_id h n) e i.entries in
      let reading : Map Entry → Disk → Done (Bytes × Entry) =
        λ entries disk. (read_local_locked h healthy n limit entries disk, disk) in
      rw (read_local_bounded, look, call, normal)
        (ap (λ p. p.0) (with_state-saved h entries reading d i.accepted i.metadata)
          ∙ read_local_locked-local_entry h now n body now limit s i.entries (cleaned entries d)
              kind fits small (stored-body_file h corrupt e body i.entries d refl i.blob) sum)

  -- After a PutLocal that succeeded at a time that is not zero, a ReadLocalBounded of the same
  -- binding in which nothing fails returns the body and the entry that were put, if the body is
  -- below 2^63 bytes and within the limit.
  pub read_local_bounded-put_local :
      (s : State) (limit : ℕ) (d : Disk) (e : Entry)
      → now ≢ 0
      → length body ≤ limit
      → length body < 2 ^ 63
      → (put_local h io now b body s d).0 ≡ ok e
      → (read_local_bounded h healthy b limit (put_local h io now b body s d).1).0 ≡ ok (body, e)
  unfolding put_local call
  read_local_bounded-put_local s limit d e nonzero fits small r =
      elim (Result-cases (check_local h now b body s)) [
        | inr (_, f) ↦ absurd (cc (rw (put_local, call, f) at r))
        | inl (x, f) ↦
            let (n, normal, kind, sum, same) = check_local-made h now b body s x f in
            let (kept, i) =
              put-IsStored h io now (putting_local b body s) x e body d nonzero
                (λ entries. local b body s x f) (rw (put_local, call, f) at r) in
            let whole = same ∙ kept in
            rw (put_local, call, f)
              (read_stored_local n s limit _ normal sum kind fits small (
                  subst (λ y. IsStored h y body (with_state h io (put_with_body h io x body) d).1)
                    (sym same) i)
                ∙ ap (λ y. ok (body, y)) whole)
      ]
