-- ===== src/Cache/Calls/Legal.antt =====
-- What runs under the lock in cache/store.go changes metadata.json only by the abstract changes.
use mathlib.Core.Path.{subst}
use malt.Base.{
  ◌≡◌, refl, inl, inr, ℕ, arith, true, not, ◌||◌, Option, some, Text, text_eq, Bool-cases,
  Option-cases, ok, Result-cases, Map, lookup, insert, is_some,
}
use malt.Base.Cids.{CidCodec}
use malt.Cache.Types.{
  Bytes, State, stale, Binding, VerificationEvidence, Entry, Error, Disk, Io, Hashes,
}
use malt.Cache.Disk.{
  binding_id, normalize_binding, is_local_body_state, load, save, write_metadata, write_body,
}
use malt.Cache.Store.Locked.{
  remote_entry, moved, allowed_transition, store_entry, mark_corrupt_locked, record_remote_locked,
  transition_locked, invalidate_locked, same_evidence,
}
use malt.Cache.Store.Bodies.{
  remove_body, may_put, undo_body, put_body, put_with_body, read_clean_locked, clean_evidence,
  clean_body, read_verified_locked, check_reconcile, stream_entry, reconcile_local_locked,
  remove_locked,
}
use malt.Cache.Calls.{
  Call, recording, moving, reconciling, Admitted, remote, spoilt, transitioned, reconciled, Change,
  resaved, stored, deleted, Becomes, unchanged, stepped,
}
use malt.Cache.Calls.Effects.{IsLegal, write_metadata-Becomes}

module _ ⦃c : CidCodec⦄ (h : Hashes) (now : ℕ) (io : Io) where
  pub record_remote-Change :
      (b n : Binding)
      → normalize_binding b ≡ ok n
      → (entries : Map Entry) (a : Entry) (new : Map Entry)
      → record_remote_locked h now n entries ≡ ok (a, new)
      → Change h now (recording b) entries (some (save new))
  unfolding record_remote_locked
  record_remote-Change b n normal entries a new r =
      elim (Option-cases (lookup (binding_id h n) entries)) [
        | inl f ↦
            let same : insert (binding_id h n) (remote_entry now n) entries ≡ new =
              cc (rw (f, record_remote_locked) at r) in
            subst (λ m. Change h now (recording b) entries (some (save m))) same
              (stored _ _ (remote b n normal))
        | inr (_, f) ↦
            let same : entries ≡ new = cc (rw (f, record_remote_locked) at r) in
            subst (λ m. Change h now (recording b) entries (some (save m))) same resaved
      ]

  pub transition-Change :
      (b n : Binding) (next : State) (entries : Map Entry) (a : Entry) (new : Map Entry)
      → transition_locked h now n next entries ≡ ok (a, new)
      → Change h now (moving b next) entries (some (save new))
  unfolding transition_locked
  transition-Change b n next entries a new r =
      elim (Option-cases (lookup (binding_id h n) entries)) [
        | inl f ↦ absurd (cc (rw f at r))
        | inr (e, f) ↦ elim (Bool-cases (allowed_transition e.state next)) [
          | inr t ↦ absurd (cc (rw (f, t) at r))
          | inl t ↦
              let same : insert (binding_id h n) (stepped now next e) entries ≡ new =
                cc (rw (f, t) at r) in
              subst (λ m. Change h now (moving b next) entries (some (save m))) same
                (stored _ _ (transitioned b next (binding_id h n) e f t))
        ]
      ]

  pub invalidate-Change :
      (made : Call) (n : Binding) (v : VerificationEvidence) (entries : Map Entry) (a : Unit {0})
      (new : Map Entry)
      → invalidate_locked h now n v entries ≡ ok (a, new)
      → Change h now made entries (some (save new))
  unfolding invalidate_locked
  invalidate-Change made n v entries a new r =
      elim (Option-cases (lookup (binding_id h n) entries)) [
        | inl f ↦ absurd (cc (rw (f, invalidate_locked) at r))
        | inr (e, f) ↦ elim (Bool-cases (same_evidence e.verification v)) [
          | inr t ↦
              let same : entries ≡ new = cc (rw (f, invalidate_locked, t) at r) in
              subst (λ m. Change h now made entries (some (save m))) same resaved
          | inl t ↦
              let same : insert (binding_id h n) (moved now stale e) entries ≡ new =
                cc (rw (f, invalidate_locked, t) at r) in
              subst (λ m. Change h now made entries (some (save m))) same
                (stored _ _ (spoilt made (binding_id h n) e f))
        ]
      ]

  module _ (made : Call) where
    mark_corrupt-metadata :
        (id : Text) (e : Entry) (cause : Error) (entries : Map Entry) (d : Disk)
        → (mark_corrupt_locked {A = Bytes × VerificationEvidence × Entry} io now id e cause entries
            d).1
          ≡ (write_metadata io (insert id (moved now stale e) entries) d).1
    unfolding mark_corrupt_locked
    mark_corrupt-metadata id e cause entries d =
        elim (Result-cases ((write_metadata io (insert id (moved now stale e) entries) d).0)) [
          | inl (_, r) ↦ rw (r, mark_corrupt_locked) refl
          | inr (_, r) ↦ rw (r, mark_corrupt_locked) refl
        ]

    read_clean-Becomes :
        (b : Binding) (e : Entry) (entries : Map Entry) (d : Disk)
        → load h d.metadata ≡ ok entries
        → lookup (binding_id h b) entries ≡ some e
        → Becomes h now made d.metadata (read_clean_locked h io now b e entries d).1.metadata
    unfolding read_clean_locked
    read_clean-Becomes b e entries d l f = elim (Result-cases (clean_evidence e)) [
      | inr (_, r) ↦ rw (r, read_clean_locked) (unchanged d.metadata)
      | inl (_, r) ↦ elim (Result-cases (clean_body h io (binding_id h b) b.cid e d)) [
        | inl (_, q) ↦ rw (r, read_clean_locked, q) (unchanged d.metadata)
        | inr (cause, q) ↦
            rw (r, read_clean_locked, q, mark_corrupt-metadata)
              (write_metadata-Becomes h now made io entries _ d.metadata d l
                (stored _ _ (spoilt made (binding_id h b) e f)) refl)
      ]
    ]

    pub read_verified_locked-IsLegal :
        (b : Binding) → IsLegal h now made io (read_verified_locked h io now b)
    unfolding read_verified_locked
    read_verified_locked-IsLegal b entries d l =
        elim (Option-cases (lookup (binding_id h b) entries)) [
          | inl f ↦ rw (f, read_verified_locked) (unchanged d.metadata)
          | inr (e, f) ↦ rw (f, read_verified_locked) (read_clean-Becomes b e entries d l f)
        ]

    write_body-metadata :
        (id : Text) (body : Bytes) (d : Disk) → (write_body io id body d).1.metadata ≡ d.metadata
    unfolding write_body
    write_body-metadata id body d = ground arith

    remove_body-metadata : (id : Text) (d : Disk) → (remove_body io id d).1.metadata ≡ d.metadata
    unfolding remove_body
    remove_body-metadata id d = ground arith

    undo_body-metadata :
        (id : Text) (o : Option Entry) (d : Disk)
        → (undo_body {A = Entry} io id o d).1.metadata ≡ d.metadata
    unfolding undo_body remove_body
    undo_body-metadata id o d = ground arith

    put_body-Becomes :
        (id : Text) (e : Entry) (body : Bytes) (entries : Map Entry) (d : Disk)
        → load h d.metadata ≡ ok entries
        → Admitted h now entries made id e
        → Becomes h now made d.metadata (put_body io id e body entries d).1.metadata
    unfolding put_body
    put_body-Becomes id e body entries d l admitted =
        let staged = write_body io id body d in
        let written = write_metadata io (insert id e entries) staged.1 in
        let stored_so =
          write_metadata-Becomes h now made io entries _ d.metadata staged.1 l
            (stored id e admitted) (write_body-metadata id body d) in
        elim (Result-cases staged.0) [
          | inr (_, r) ↦ rw (r, put_body, write_body-metadata id body d) (unchanged d.metadata)
          | inl (_, r) ↦ elim (Result-cases written.0) [
            | inl (_, q) ↦ rw (r, put_body, q) stored_so
            | inr (_, q) ↦ rw (r, put_body, q, undo_body-metadata) stored_so
          ]
        ]

    pub put_with_body-IsLegal :
        (e : Entry) (body : Bytes)
        → ((entries : Map Entry) → Admitted h now entries made (binding_id h e.binding) e)
        → IsLegal h now made io (put_with_body h io e body)
    unfolding put_with_body
    put_with_body-IsLegal e body admitted entries d l =
        elim (Bool-cases (may_put (lookup (binding_id h e.binding) entries) e.state)) [
          | inr m ↦ rw (m, put_with_body) (unchanged d.metadata)
          | inl m ↦
              rw (m, put_with_body)
                (put_body-Becomes (binding_id h e.binding) e body entries d l (admitted entries))
        ]

    found_local :
        (b : Binding) (n : ℕ) (entries : Map Entry) (d : Disk) (e : Entry)
        → check_reconcile h io b n entries d ≡ ok e
        → (lookup (binding_id h b) entries ≡ some e)
          × (is_local_body_state e.state ≡ true)
          × (e.body_present ≡ true)
    unfolding check_reconcile
    found_local b n entries d e r = elim (Option-cases (lookup (binding_id h b) entries)) [
      | inl f ↦ absurd (cc (rw (f, check_reconcile) at r))
      | inr (x, f) ↦ elim (Bool-cases (not (is_local_body_state x.state) || not x.body_present)) [
        | inl g ↦ absurd (cc (rw (f, check_reconcile, g) at r))
        | inr g ↦ elim (Result-cases (stream_entry h io b n x d)) [
          | inr (_, q) ↦ absurd (cc (rw (f, check_reconcile, g, q) at r))
          | inl (_, q) ↦
              let same : x ≡ e = cc (rw (f, check_reconcile, g, q) at r) in
              subst
                (λ y.
                  (lookup (binding_id h b) entries ≡ some y)
                  × (is_local_body_state y.state ≡ true)
                  × (y.body_present ≡ true))
                same (f, ground (arith, g), ground (arith, g))
        ]
      ]
    ]

  pub reconcile_local-IsLegal :
      (b n : Binding) (next : State) (limit : ℕ)
      → is_local_body_state next ≡ true
      → IsLegal h now (reconciling b next limit) io (reconcile_local_locked h io now n next limit)
  unfolding reconcile_local_locked store_entry
  reconcile_local-IsLegal b n next limit body entries d l =
      let made = reconciling b next limit in
      elim (Result-cases (check_reconcile h io n limit entries d)) [
        | inr (_, r) ↦ rw (r, reconcile_local_locked) (unchanged d.metadata)
        | inl (e, r) ↦
            let (found, is_local, held) = found_local made n limit entries d e r in
            rw (r, reconcile_local_locked)
              (write_metadata-Becomes h now made io entries _ d.metadata d l
                (stored _ _ (reconciled b next limit (binding_id h n) e found body is_local held))
                refl)
      ]

  module _ (made : Call) where
    pub remove_locked-IsLegal : (b : Binding) → IsLegal h now made io (remove_locked h io b)
    unfolding remove_locked
    remove_locked-IsLegal b entries d l =
        elim (Bool-cases (is_some (lookup (binding_id h b) entries))) [
          | inr f ↦ rw (f, remove_locked) (unchanged d.metadata)
          | inl f ↦ elim (Result-cases ((remove_body io (binding_id h b) d).0)) [
            | inr (_, r) ↦
                rw (f, remove_locked, r, remove_body-metadata made (binding_id h b) d)
                  (unchanged d.metadata)
            | inl (_, r) ↦
                rw (f, remove_locked, r)
                  (write_metadata-Becomes h now made io entries _ d.metadata _ l
                    (deleted (binding_id h b)) (remove_body-metadata made (binding_id h b) d))
          ]
        ]
