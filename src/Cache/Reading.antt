-- ===== src/Cache/Reading.antt =====
-- ReadVerified of cache/store.go: what is known of bytes that it returns.
use mathlib.Core.Path.{subst}
use malt.Base.{
  ◌≡◌, ◌≢◌, sym, ap, ◌∙◌, inl, inr, ℕ, Bool, true, some, Text, text_eq, length, ◌==◌, ==_iff,
  Bool-cases, Option-cases, ok, err, Result-cases, Map, lookup, insert,
}
use malt.Base.Cids.{CidCodec}
use malt.Cache.Types.{
  joined, io_failed, corrupt, pos, Bytes, verified_clean, stale, state_eq, int_eq, Binding,
  VerificationEvidence, Entry, Error, Disk, Io, Hashes,
}
use malt.Cache.Disk.{binding_id, normalize_binding, load, write_metadata}
use malt.Cache.Store.Locked.{Done, moved, body_file, verify_payload_cid, mark_corrupt_locked}
use malt.Cache.Store.Bodies.{clean_evidence, clean_body, read_clean_locked, read_verified_locked}
use malt.Cache.Store.Methods.{
  reload, with_state, invalidate, reverify, check_verifier, read_verified,
}
use malt.Cache.Calls.Effects.{reload-load}
use malt.Cache.Calls.{listing}

-- The bytes are the body that an entry of the file describes, and its evidence was verified again.
pub record IsVerified ⦃c : CidCodec⦄ (h : Hashes) (verifier : Binding → VerificationEvidence → Bool)
    (b : Binding) (d : Disk) (body : Bytes) (e : Entry) : Type 0 where
  pub normal : Binding
  pub normalized : normalize_binding b ≡ ok normal
  pub entries : Map Entry
  pub loaded : load h d.metadata ≡ ok entries
  pub found : lookup (binding_id h normal) entries ≡ some e
  pub clean : e.state ≡ verified_clean
  pub evidence : VerificationEvidence
  pub held : e.verification ≡ some evidence
  pub reverified : verifier normal evidence ≡ true
  pub measured : e.size ≡ pos (length body)
  pub summed : h.sum normal.cid body ≡ some normal.cid

pub verify_payload_cid-sum :
    (h : Hashes) (payload : Text) (body : Bytes)
    → verify_payload_cid h payload body ≡ ok tt
    → h.sum payload body ≡ some payload
unfolding verify_payload_cid
verify_payload_cid-sum h payload body r = elim (Option-cases (h.sum payload body)) [
  | inl f ↦ absurd (cc (rw (f, verify_payload_cid) at r))
  | inr (actual, f) ↦ elim (Bool-cases (actual == payload)) [
    | inl g ↦ f ∙ ap some ((==_iff actual payload).0 g)
    | inr g ↦ absurd (cc (rw (f, verify_payload_cid, g) at r))
  ]
]

clean_evidence-made :
    (e : Entry) (v : VerificationEvidence)
    → clean_evidence e ≡ ok v
    → (e.state ≡ verified_clean) × (e.verification ≡ some v)
unfolding clean_evidence
clean_evidence-made e v r = elim (Bool-cases (e.state == verified_clean)) [
  | inr s ↦ absurd (cc (rw (s, clean_evidence) at r))
  | inl s ↦ elim (Option-cases e.verification) [
    | inl o ↦ absurd (cc (rw (s, clean_evidence, o) at r))
    | inr (x, o) ↦ ((==_iff _ _).0 s, o ∙ ap some (cc (rw (s, clean_evidence, o) at r)))
  ]
]

clean_body-made :
    (h : Hashes) (io : Io) (id payload : Text) (e : Entry) (d : Disk) (body : Bytes)
    → clean_body h io id payload e d ≡ ok body
    → (e.size ≡ pos (length body)) × (h.sum payload body ≡ some payload)
unfolding clean_body
clean_body-made h io id payload e d body r = elim (Bool-cases e.body_present) [
  | inr p ↦ absurd (cc (rw (p, clean_body) at r))
  | inl p ↦ elim (Result-cases (body_file io (joined corrupt io_failed) id d)) [
    | inr (_, f) ↦ absurd (cc (rw (p, clean_body, f) at r))
    | inl (x, f) ↦ elim (Bool-cases (e.size == pos (length x))) [
      | inr s ↦ absurd (cc (rw (p, clean_body, f, s) at r))
      | inl s ↦ elim (Result-cases (verify_payload_cid h payload x)) [
        | inr (_, q) ↦ absurd (cc (rw (p, clean_body, f, s, q) at r))
        | inl (_, q) ↦
            let same : x ≡ body = cc (rw (p, clean_body, f, s, q) at r) in
            subst (λ y. (e.size ≡ pos (length y)) × (h.sum payload y ≡ some payload)) same
              ((==_iff _ _).0 s, verify_payload_cid-sum h payload x q)
      ]
    ]
  ]
]

module _ (h : Hashes) (io : Io) (now : ℕ) where
  -- A corrupt entry is never an answer.
  no_answer :
      {A : Type 0} {a : A} (id : Text) (e : Entry) (cause : Error) (entries : Map Entry) (d : Disk)
      → (mark_corrupt_locked io now id e cause entries d).0 ≢ ok a
  unfolding mark_corrupt_locked
  no_answer id e cause entries d r =
      elim (Result-cases ((write_metadata io (insert id (moved now stale e) entries) d).0)) [
        | inl (_, q) ↦ cc (rw (mark_corrupt_locked, q) at r)
        | inr (_, q) ↦ cc (rw (mark_corrupt_locked, q) at r)
      ]

  read_clean-made :
      (b : Binding) (x e : Entry) (entries : Map Entry) (d : Disk) (body : Bytes)
      (v : VerificationEvidence)
      → (read_clean_locked h io now b x entries d).0 ≡ ok (body, v, e)
      → (clean_evidence x ≡ ok v) × (clean_body h io (binding_id h b) b.cid x d ≡ ok body) × (x ≡ e)
  unfolding read_clean_locked
  read_clean-made b x e entries d body v r = elim (Result-cases (clean_evidence x)) [
    | inr (_, f) ↦ absurd (cc (rw (f, read_clean_locked) at r))
    | inl (w, f) ↦ elim (Result-cases (clean_body h io (binding_id h b) b.cid x d)) [
      | inr (cause, q) ↦ absurd (no_answer _ _ cause entries d (rw (f, read_clean_locked, q) at r))
      | inl (y, q) ↦
          let same_body : y ≡ body = cc (rw (f, read_clean_locked, q) at r) in
          let same_evidence : w ≡ v = cc (rw (f, read_clean_locked, q) at r) in
          let same_entry : x ≡ e = cc (rw (f, read_clean_locked, q) at r) in
          (f ∙ ap ok same_evidence, q ∙ ap ok same_body, same_entry)
    ]
  ]

  -- What an operation that answered had read.
  with_state-made :
      ⦃c : CidCodec⦄ {A : Type 0} (op : Map Entry → Disk → Done A) (d : Disk) (a : A)
      → (with_state h io op d).0 ≡ ok a
      → (entries : Map Entry) × (load h d.metadata ≡ ok entries)
        × ((op entries (reload h io d).1).0 ≡ ok a)
  unfolding with_state
  with_state-made op d a r = elim (Bool-cases io.prepared) [
    | inr p ↦ absurd (cc (rw (p, with_state) at r))
    | inl p ↦ elim (Result-cases ((reload h io d).0)) [
      | inr (_, q) ↦ absurd (cc (rw (p, with_state, q) at r))
      | inl (entries, q) ↦
          (entries, reload-load h now listing io d entries q, rw (p, with_state, q) at r)
    ]
  ]

  read_verified_locked-made :
      (b : Binding) (entries : Map Entry) (d : Disk) (body : Bytes) (v : VerificationEvidence)
      (e : Entry)
      → (read_verified_locked h io now b entries d).0 ≡ ok (body, v, e)
      → (lookup (binding_id h b) entries ≡ some e)
        × (clean_evidence e ≡ ok v)
        × (clean_body h io (binding_id h b) b.cid e d ≡ ok body)
  unfolding read_verified_locked
  read_verified_locked-made b entries d body v e r =
      elim (Option-cases (lookup (binding_id h b) entries)) [
        | inl f ↦ absurd (cc (rw (f, read_verified_locked) at r))
        | inr (x, f) ↦
            let (clean, whole, same) =
              read_clean-made b x e entries d body v (rw (f, read_verified_locked) at r) in
            (
              f ∙ ap some same,
              ap clean_evidence (sym same) ∙ clean,
              ap (λ y. clean_body h io (binding_id h b) b.cid y d) (sym same) ∙ whole,
            )
      ]

  reverify-made :
      ⦃c : CidCodec⦄ (again : Io) (verifier : Binding → VerificationEvidence → Bool) (b : Binding)
      (done : Done (Bytes × VerificationEvidence × Entry)) (body : Bytes) (e : Entry)
      → (reverify h again now verifier b done).0 ≡ ok (body, e)
      → (v : VerificationEvidence) × (verifier b v ≡ true) × (done.0 ≡ ok (body, v, e))
  unfolding reverify
  reverify-made again verifier b (err _, d) body e r = absurd cc
  reverify-made again verifier b (ok (x, v, y), d) body e r = elim (Bool-cases (verifier b v)) [
    | inl a ↦
        let same_body : x ≡ body = cc (rw (reverify, a) at r) in
        let same_entry : y ≡ e = cc (rw (reverify, a) at r) in
        (v, a, ap (λ z. ok (z, v, y)) same_body ∙ ap (λ z. ok (body, v, z)) same_entry)
    | inr a ↦ elim (Result-cases ((invalidate h again now b v d).0)) [
      | inl (_, q) ↦ absurd (cc (rw (reverify, a, q) at r))
      | inr (_, q) ↦ absurd (cc (rw (reverify, a, q) at r))
    ]
  ]

  -- Bytes that ReadVerified returns are the body of a verified entry which the metadata holds
  -- under the identity of the normalized binding: their number is the size of the entry, their
  -- sum is the payload CID of the binding, and the verifier accepted the evidence of the entry
  -- for that binding again.
  pub read_verified-IsVerified :
      ⦃c : CidCodec⦄ (again : Io) (verifier : Binding → VerificationEvidence → Bool) (b : Binding)
      (d : Disk) (body : Bytes) (e : Entry)
      → (read_verified h io again now (some verifier) b d).0 ≡ ok (body, e)
      → IsVerified h verifier b d body e
  unfolding read_verified check_verifier
  read_verified-IsVerified again verifier b d body e r = elim (Result-cases (normalize_binding b)) [
    | inr (_, f) ↦ absurd (cc (rw (read_verified, f) at r))
    | inl (n, f) ↦
        let (v, accepted, answered) =
          reverify-made again verifier n _ body e (rw (read_verified, f) at r) in
        let (entries, loaded, done) =
          with_state-made (read_verified_locked h io now n) d (body, v, e) answered in
        let (found, clean, whole) = read_verified_locked-made n entries _ body v e done in
        let (state, evidence) = clean_evidence-made e v clean in
        let (size, sum) = clean_body-made h io (binding_id h n) n.cid e _ body whole in
        record {
          normal = n;
          normalized = f;
          entries = entries;
          loaded = loaded;
          found = found;
          clean = state;
          evidence = v;
          held = evidence;
          reverified = accepted;
          measured = size;
          summed = sum;
        }
  ]
