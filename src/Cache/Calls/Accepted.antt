-- ===== src/Cache/Calls/Accepted.antt =====
-- The entries that the calls of cache/store.go store are accepted when the file is read again.
use mathlib.Core.Path.{subst}
use malt.Base.{
  ◌≡◌, ◌≢◌, refl, sym, ◌⊎◌, inl, inr, ℕ, arith, false, Option, some, Text, text_eq, nat_eq, ok, Map,
  insert, delete, trim_space,
}
use malt.Base.Trim.{trim_space_idem}
use malt.Base.Cids.{CidCodec}
use malt.Cache.Types.{
  Bytes, State, local_dirty, offline_only, int_eq, state_eq, Binding, VerificationEvidence, Entry,
  Metadata, Disk, Io, Hashes,
}
use malt.Cache.Disk.{
  check_state, check_fields, valid_state, negative, lacks_evidence, binding_id, load, save,
}
use malt.Cache.Store.Locked.{remote_entry}
use malt.Cache.Store.Methods.{check_evidence, verified_entry, local_entry}
use malt.Cache.Entries.{
  IsAccepted, AllAccepted, refused, normalize_binding_idem, load-AllAccepted, load-save,
  AllAccepted-insert, AllAccepted-delete, lookup-IsAccepted,
}
use malt.Cache.Calls.Runs.{perform-Becomes}
use malt.Cache.Calls.{
  Call, Admitted, remote, verified, local, spoilt, transitioned, reconciled, Change, resaved,
  stored, deleted, Becomes, unchanged, changed, perform,
}
use malt.Cache.Calls.Checks.{
  spoilt_passes, local_passes, stepped_passes, check_verified-made, check_local-made,
}

remote_passes : (now : ℕ) (n : Binding) → now ≢ 0 → refused (remote_entry now n) ≡ false
unfolding check_state check_fields valid_state negative
remote_passes now n later = ground arith

verified_passes :
    (now : ℕ) (n : Binding) (body : Bytes) (v : VerificationEvidence)
    → now ≢ 0
    → check_evidence (record v { profile = trim_space v.profile }) ≡ ok tt
    → refused (verified_entry now n body (record v { profile = trim_space v.profile })) ≡ false
unfolding check_state check_fields valid_state negative lacks_evidence check_evidence
verified_passes now n body v later evidence = rw (trim_space_idem v.profile) (ground arith)

staged_passes :
    (now : ℕ) (n : Binding) (body : Bytes) (s : State)
    → now ≢ 0
    → (s ≡ local_dirty) ⊎ (s ≡ offline_only)
    → refused (local_entry now n body s) ≡ false
unfolding check_state check_fields valid_state negative
staged_passes now n body s later (inl e) = rw e (ground arith)
staged_passes now n body s later (inr e) = rw e (ground arith)

module _ ⦃c : CidCodec⦄ (h : Hashes) (now : ℕ) (later : now ≢ 0) where
  pub Admitted-IsAccepted :
      (made : Call) (entries : Map Entry) (id : Text) (e : Entry)
      → AllAccepted h entries
      → Admitted h now entries made id e
      → IsAccepted h id e
  Admitted-IsAccepted _ entries _ _ all (remote b n f) = record {
    normal = normalize_binding_idem b n f;
    passed = remote_passes now n later;
    same_id = refl;
  }
  Admitted-IsAccepted _ entries _ _ all (verified b body v e f) =
      let (n, normal, evidence, matches, same) = check_verified-made h now b body v e f in
      subst (λ x. IsAccepted h (binding_id h x.binding) x) same
        (record {
          normal = normalize_binding_idem b n normal;
          passed = verified_passes now n body v later evidence;
          same_id = refl;
        })
  Admitted-IsAccepted _ entries _ _ all (local b body s e f) =
      let (n, normal, allowed, matches, same) = check_local-made h now b body s e f in
      subst (λ x. IsAccepted h (binding_id h x.binding) x) same
        (record {
          normal = normalize_binding_idem b n normal;
          passed = staged_passes now n body s later allowed;
          same_id = refl;
        })
  Admitted-IsAccepted _ entries _ _ all (spoilt made id x f) =
      let before = lookup-IsAccepted h id x entries all f in
      record {
        normal = before.normal;
        passed = spoilt_passes now x later before.passed;
        same_id = before.same_id;
      }
  Admitted-IsAccepted _ entries _ _ all (transitioned b next id x f a) =
      let before = lookup-IsAccepted h id x entries all f in
      record {
        normal = before.normal;
        passed = stepped_passes now next x later a before.passed;
        same_id = before.same_id;
      }
  Admitted-IsAccepted _ entries _ _ all (reconciled b next limit id x f after was held) =
      let before = lookup-IsAccepted h id x entries all f in
      record {
        normal = before.normal;
        passed = local_passes now next x later after held before.passed;
        same_id = before.same_id;
      }

  -- What a change leaves loads as the changed entries.
  pub Change-AllAccepted :
      (made : Call) (entries : Map Entry) (next : Option Metadata)
      → AllAccepted h entries
      → Change h now made entries next
      → (new : Map Entry) × (next ≡ some (save new)) × AllAccepted h new
  Change-AllAccepted made entries _ all (resaved) = (entries, refl, all)
  Change-AllAccepted made entries _ all (stored id e a) = (
    insert id e entries,
    refl,
    AllAccepted-insert h id e entries all (Admitted-IsAccepted made entries id e all a),
  )
  Change-AllAccepted made entries _ all (deleted id) =
      (delete id entries, refl, AllAccepted-delete h id entries all)

  Becomes-loads :
      (made : Call) (m last : Option Metadata) (entries : Map Entry)
      → load h m ≡ ok entries
      → Becomes h now made m last
      → (after : Map Entry) × (load h last ≡ ok after)
  Becomes-loads made m _ entries l (unchanged _) = (entries, l)
  Becomes-loads made m last entries l (changed _ next _ found f change rest) =
      let (new, same, all) =
        Change-AllAccepted made found next (load-AllAccepted h m found f) change in
      Becomes-loads made next last new
        (subst (λ n. load h n ≡ ok new) (sym same) (load-save h new all)) rest

  -- If the metadata of the cache loads before a call at a time that is not zero, it loads after
  -- it, whatever failed in the call.
  pub perform-loads :
      (io : Io) (made : Call) (d : Disk) (entries : Map Entry)
      → load h d.metadata ≡ ok entries
      → (after : Map Entry) × (load h (perform h io now made d).metadata ≡ ok after)
  perform-loads io made d entries l =
      Becomes-loads made d.metadata _ entries l (perform-Becomes h now io made d)
