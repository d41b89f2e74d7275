-- ===== src/Cache/Disk.antt =====
-- What is read and written under the lock: the checks of metadata.json, the removal of what nothing
-- refers to, and the replacement of the metadata and of a body.
use malt.Base.{
  Bool, true, false, not, ◌&&◌, ◌||◌, Option, none, some, [], ◌∷◌, ◌++◌, Text, text, text_eq,
  nat_eq, ◌==◌, ok, err, ◌>>=◌, ◌>>◌, refuse_if, or_fail, if◌then◌else◌, trim_space, valid_utf8,
  contains_rune, has_prefix, Map, lookup, insert, is_some,
}
use malt.Base.Cids.{CidCodec}
use malt.Base.Durable.{replaced, failed_before_rename, failed_after_rename}
use malt.Cache.Types.{
  ℤ, pos, negsuc, Bytes, State, unmaterialized_remote, verified_clean, local_dirty, pending_upload,
  candidate, conflicted, offline_only, stale, unknown, int_eq, Binding, VerificationEvidence, Entry,
  Metadata, metadata_version, Outcome, missing_names, missing_cids, bad_root, bad_payload,
  invalid_metadata, unsupported_version, mismatched_identity, io_failed, Node, file, directory,
  Disk, Io, Hashes,
}

unfoldable pub valid_state : State → Bool
valid_state (unknown t) = false
valid_state s = true

unfoldable pub is_local_body_state : State → Bool
is_local_body_state local_dirty = true
is_local_body_state pending_upload = true
is_local_body_state candidate = true
is_local_body_state conflicted = true
is_local_body_state offline_only = true
is_local_body_state s = false

unfoldable pub negative : ℤ → Bool
negative (pos n) = false
negative (negsuc n) = true

-- A name of a dataset or branch, trimmed.
unfoldable pub bad_name : Text → Bool
bad_name t = t == [] || (not (valid_utf8 t) || contains_rune 0 t)

module _ ⦃c : CidCodec⦄ where
  unfoldable pub normalize_binding : Binding → Outcome Binding
  unfolding bad_name
  normalize_binding b = do
    let dataset = trim_space b.dataset_id
    let branch = trim_space b.branch
    refuse_if (bad_name dataset || bad_name branch) missing_names
    refuse_if (b.root == [] || b.cid == []) missing_cids
    root ← or_fail (c.parse b.root) bad_root
    payload ← or_fail (c.parse b.cid) bad_payload
    ok record b { dataset_id = dataset; branch = branch; root = root; cid = payload }

-- The evidence of a verified entry, as the file holds it.
unfoldable pub lacks_evidence : Option VerificationEvidence → Bool
lacks_evidence none = true
lacks_evidence (some v) =
    v.verified_at == 0
    || (trim_space v.profile == [] || (not (valid_utf8 v.profile) || v.evidence == []))

-- The `switch` on the state, over the fields that it looks at.
unfoldable pub check_fields : State → Option VerificationEvidence → Bool → ℤ → Bool
unfolding lacks_evidence
check_fields unmaterialized_remote evidence held size =
    not (held || (not (size == pos 0) || is_some evidence))
check_fields verified_clean evidence held size = not (lacks_evidence evidence || not held)
check_fields local_dirty evidence held size = not (not held || is_some evidence)
check_fields pending_upload evidence held size = not (not held || is_some evidence)
check_fields candidate evidence held size = not (not held || is_some evidence)
check_fields conflicted evidence held size = not (not held || is_some evidence)
check_fields offline_only evidence held size = not (not held || is_some evidence)
check_fields stale evidence held size = not (is_some evidence)
check_fields (unknown t) evidence held size = true

unfoldable pub check_state : Entry → Bool
unfolding check_fields
check_state e = check_fields e.state e.verification e.body_present e.size

-- bindingID
abbrev pub binding_id : Hashes → Binding → Text
binding_id h b = h.binding_digest b

module _ ⦃c : CidCodec⦄ where
  unfoldable pub normalize_entry : Entry → Outcome Entry
  unfolding normalize_binding valid_state negative check_state
  normalize_entry e = do
    binding ← normalize_binding e.binding
    refuse_if (not (valid_state e.state) || (e.updated_at == 0 || negative e.size)) invalid_metadata
    refuse_if (not e.body_present && not (e.size == pos 0)) invalid_metadata
    refuse_if (not (check_state e)) invalid_metadata
    ok record e { binding = binding }

  module _ (h : Hashes) where
    unfoldable pub load_entry : Text → Entry → Outcome Entry
    unfolding normalize_entry
    load_entry id e = do
      normalized ← normalize_entry e
      refuse_if (not (binding_id h normalized.binding == id)) mismatched_identity
      ok normalized

    unfoldable pub load_entries : Map Entry → Outcome (Map Entry)
    unfolding load_entry
    load_entries [] = ok []
    load_entries ((id, e) ∷ rest) = do
      normalized ← load_entry id e
      others ← load_entries rest
      ok ((id, normalized) ∷ others)

    unfoldable pub load : Option Metadata → Outcome (Map Entry)
    unfolding load_entries
    load none = ok []
    load (some next) = do
      refuse_if (not (next.version == metadata_version)) unsupported_version
      entries ← or_fail next.entries unsupported_version
      load_entries entries

unfoldable pub save : Map Entry → Metadata
save entries = record { version = metadata_version; entries = some entries }

-- strings.HasSuffix
unfoldable pub has_suffix : Text → Text → Bool
has_suffix [] s = [] == s
has_suffix (c ∷ cs) s = (c ∷ cs) == s || has_suffix cs s

-- bodyPath, in the directory `blobs`
unfoldable pub body_name : Text → Text
body_name id = id ++ text ".blob"

-- _, ok := referenced[name]
unfoldable pub is_referenced : Map Entry → Text → Bool
unfolding body_name
is_referenced [] name = false
is_referenced ((id, e) ∷ rest) name =
    (e.body_present && body_name id == name) || is_referenced rest name

unfoldable pub is_directory : Node → Bool
is_directory directory = true
is_directory (file body) = false

unfoldable pub is_orphan : Map Entry → Text → Bool
unfolding is_referenced has_suffix has_prefix
is_orphan entries name =
    not (is_referenced entries name)
    && (has_suffix name (text ".blob") || has_prefix name (text ".cache-body-"))

-- One directory, of which the first removal that fails ends the code.
unfoldable pub sweep : (Text → Bool) → (Text → Bool) → Map Node → Outcome (Unit {0}) × Map Node
unfolding is_directory
sweep removable doomed [] = (ok tt, [])
sweep removable doomed ((name, node) ∷ rest) =
    let later = sweep removable doomed rest in
    if not (is_directory node) && doomed name
    then (if removable name then later else (err io_failed, (name, node) ∷ rest))
    else (later.0, (name, node) ∷ later.1)

unfoldable pub reconcile : Io → Map Entry → Disk → Outcome (Unit {0}) × Disk
unfolding sweep is_orphan has_prefix
reconcile io entries disk =
    let blobs = sweep io.swept (is_orphan entries) disk.blobs in
    let others = sweep io.swept (λ name. has_prefix name (text ".cache-metadata-")) disk.others in
    if not io.blobs_listed then (err io_failed, disk) else elim (blobs.0) [
      | err e ↦ (err e, record disk { blobs = blobs.1 })
      | ok _ ↦
          if not io.others_listed
          then (err io_failed, record disk { blobs = blobs.1 })
          else (others.0, record disk { blobs = blobs.1; others = others.1 })
    ]

unfoldable pub write_metadata : Io → Map Entry → Disk → Outcome (Unit {0}) × Disk
unfolding save
write_metadata io entries disk = elim (io.writing) [
  | replaced ↦ (ok tt, record disk { metadata = some (save entries) })
  | failed_before_rename ↦ (err io_failed, disk)
  | failed_after_rename ↦ (err io_failed, record disk { metadata = some (save entries) })
]

-- A rename does not replace a directory.
unfoldable pub replaceable : Option Node → Bool
unfolding is_directory
replaceable none = true
replaceable (some node) = not (is_directory node)

-- writeBodyLocked
unfoldable pub write_body : Io → Text → Bytes → Disk → Outcome (Unit {0}) × Disk
unfolding body_name replaceable
write_body io id body disk =
    let written = record disk { blobs = insert (body_name id) (file body) disk.blobs } in
    if not (replaceable (lookup (body_name id) disk.blobs))
    then (err io_failed, disk)
    else elim (io.body_writing) [
      | replaced ↦ (ok tt, written)
      | failed_before_rename ↦ (err io_failed, disk)
      | failed_after_rename ↦ (err io_failed, written)
    ]
