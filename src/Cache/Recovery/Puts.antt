-- ===== src/Cache/Recovery/Puts.antt =====
-- What a put leaves in the directory, and that the reading methods find it.
use malt.Base.{
  ◌≡◌, ◌≢◌, refl, sym, ap, ◌∙◌, inl, inr, ℕ, arith, true, Option, some, Text, text_eq, Bool-cases,
  ok, Result-cases, Map, lookup, insert, lookup-insert_self,
}
use malt.Base.Cids.{CidCodec}
use malt.Cache.Types.{Error, Bytes, Entry, Disk, Io, Hashes, file, int_eq, state_eq}
use malt.Cache.Disk.{binding_id, body_name, load, save, write_body, write_metadata}
use malt.Cache.Store.Locked.{Done, body_file}
use malt.Cache.Store.Bodies.{may_put, undo_body, put_body, put_with_body}
use malt.Cache.Store.Methods.{reload, with_state}
use malt.Cache.Entries.{AllAccepted, load-AllAccepted, AllAccepted-insert}
use malt.Cache.Calls.{Call, listing, Admitted}
use malt.Cache.Calls.Accepted.{Admitted-IsAccepted}
use malt.Cache.Calls.Effects.{reload-load}
use malt.Cache.Recovery.{healthy, cleaned, cleaned-lookup, is_referenced-insert}

-- A directory in which the entry and its body were stored.
pub record IsStored ⦃c : CidCodec⦄ (h : Hashes) (e : Entry) (body : Bytes) (d : Disk) : Type 0 where
  pub entries : Map Entry
  pub metadata : d.metadata ≡ some (save (insert (binding_id h e.binding) e entries))
  pub accepted : AllAccepted h (insert (binding_id h e.binding) e entries)
  pub blob : lookup (body_name (binding_id h e.binding)) d.blobs ≡ some (file body)

write_body-made :
    (io : Io) (id : Text) (body : Bytes) (d : Disk)
    → (write_body io id body d).0 ≡ ok tt
    → lookup (body_name id) (write_body io id body d).1.blobs ≡ some (file body)
unfolding write_body
write_body-made io id body d r =
    ground (arith, lookup-insert_self (body_name id) (file body) d.blobs)

write_metadata-made :
    (io : Io) (new : Map Entry) (d : Disk)
    → (write_metadata io new d).0 ≡ ok tt
    → ((write_metadata io new d).1.metadata ≡ some (save new))
      × ((write_metadata io new d).1.blobs ≡ d.blobs)
unfolding write_metadata
write_metadata-made io new d r = ground arith

module _ (h : Hashes) (io : Io) where
  no_undo : {a : Entry} (id : Text) (o : Option Entry) (d : Disk) → (undo_body io id o d).0 ≢ ok a
  unfolding undo_body
  no_undo id o d r = ground arith

  put_body-made :
      (id : Text) (e x : Entry) (body : Bytes) (entries : Map Entry) (d : Disk)
      → (put_body io id e body entries d).0 ≡ ok x
      → (e ≡ x)
        × ((put_body io id e body entries d).1.metadata ≡ some (save (insert id e entries)))
        × (lookup (body_name id) (put_body io id e body entries d).1.blobs ≡ some (file body))
  unfolding put_body
  put_body-made id e x body entries d r =
      let staged = write_body io id body d in
      let written = write_metadata io (insert id e entries) staged.1 in
      elim (Result-cases staged.0) [
        | inr (_, f) ↦ absurd (cc (rw (f, put_body) at r))
        | inl (_, f) ↦ elim (Result-cases written.0) [
          | inr (_, g) ↦
              absurd (no_undo id (lookup id entries) written.1 (rw (f, put_body, g) at r))
          | inl (_, g) ↦
              let (metadata, blobs) = write_metadata-made io (insert id e entries) staged.1 g in
              rw (f, put_body, g)
                (
                  cc (rw (f, put_body, g) at r),
                  metadata,
                  ap (lookup (body_name id)) blobs ∙ write_body-made io id body d f,
                )
        ]
      ]

  put_with_body-made :
      (e x : Entry) (body : Bytes) (entries : Map Entry) (d : Disk)
      → (put_with_body h io e body entries d).0 ≡ ok x
      → (e ≡ x)
        × ((put_with_body h io e body entries d).1.metadata
            ≡ some (save (insert (binding_id h e.binding) e entries)))
        × (lookup (body_name (binding_id h e.binding)) (put_with_body h io e body entries d).1.blobs
            ≡ some (file body))
  unfolding put_with_body
  put_with_body-made e x body entries d r =
      elim (Bool-cases (may_put (lookup (binding_id h e.binding) entries) e.state)) [
        | inr m ↦ absurd (cc (rw (m, put_with_body) at r))
        | inl m ↦
            rw (m, put_with_body)
              (put_body-made (binding_id h e.binding) e x body entries d
                (rw (m, put_with_body) at r))
      ]

module _ ⦃c : CidCodec⦄ (h : Hashes) (io : Io) where
  with_state-ran :
      {A : Type 0} (op : Map Entry → Disk → Done A) (d : Disk) (a : A)
      → (with_state h io op d).0 ≡ ok a
      → (entries : Map Entry) × (load h d.metadata ≡ ok entries)
        × (with_state h io op d ≡ op entries (reload h io d).1)
  unfolding with_state
  with_state-ran op d a r = elim (Bool-cases io.prepared) [
    | inr p ↦ absurd (cc (rw (p, with_state) at r))
    | inl p ↦ elim (Result-cases ((reload h io d).0)) [
      | inr (_, q) ↦ absurd (cc (rw (p, with_state, q) at r))
      | inl (entries, q) ↦
          (entries, reload-load h 0 listing io d entries q, rw (p, with_state, q) refl)
    ]
  ]

  -- A put that succeeded stored the entry and its body.
  pub put-IsStored :
      (now : ℕ) (made : Call) (e x : Entry) (body : Bytes) (d : Disk)
      → now ≢ 0
      → ((entries : Map Entry) → Admitted h now entries made (binding_id h e.binding) e)
      → (with_state h io (put_with_body h io e body) d).0 ≡ ok x
      → (e ≡ x) × IsStored h e body (with_state h io (put_with_body h io e body) d).1
  put-IsStored now made e x body d later admitted r =
      let (entries, l, ran) = with_state-ran (put_with_body h io e body) d x r in
      let (same, metadata, blob) =
        put_with_body-made h io e x body entries (reload h io d).1 (ap (λ p. p.0) (sym ran) ∙ r) in
      let all = load-AllAccepted h d.metadata entries l in
      (
        same,
        record {
          entries = entries;
          metadata = ap (λ p. p.1.metadata) ran ∙ metadata;
          accepted =
              AllAccepted-insert h _ e entries all
                (Admitted-IsAccepted h now later made entries _ e all (admitted entries));
          blob = ap (λ p. lookup (body_name (binding_id h e.binding)) p.1.blobs) ran ∙ blob;
        },
      )

-- The body of a stored entry is found, whatever else is cleaned up.
pub stored-body_file :
    (h : Hashes) (irregular : Error) (e : Entry) (body : Bytes) (entries : Map Entry) (d : Disk)
    → e.body_present ≡ true
    → lookup (body_name (binding_id h e.binding)) d.blobs ≡ some (file body)
    → body_file healthy irregular
        (binding_id h e.binding)
        (cleaned (insert (binding_id h e.binding) e entries) d)
      ≡ ok body
unfolding body_file
stored-body_file h irregular e body entries d held blob =
    let id = binding_id h e.binding in
    let there =
      cleaned-lookup (insert id e entries) (body_name id) d
        (is_referenced-insert id e entries held) in
    rw (body_file, there ∙ blob) refl
