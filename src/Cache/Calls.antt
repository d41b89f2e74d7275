-- ===== src/Cache/Calls.antt =====
-- A call of any method of cache/store.go, and the abstract changes of metadata.json that it makes.
pub mod Effects
pub mod Legal
pub mod Runs
pub mod Checks
pub mod Accepted
pub mod History
use malt.Base.{
  ◌≡◌, ℕ, Bool, true, Option, none, some, List, Text, ◌==◌, if◌then◌else◌, ok, Map, lookup, insert,
  delete,
}
use malt.Base.Cids.{CidCodec}
use malt.Cache.Types.{
  Bytes, State, verified_clean, stale, state_eq, Binding, VerificationEvidence, Entry, Metadata,
  Disk, Io, Hashes,
}
use malt.Cache.Disk.{binding_id, normalize_binding, is_local_body_state, load, save}
use malt.Cache.Store.Locked.{remote_entry, moved, allowed_transition}
use malt.Cache.Store.Methods.{
  check_verified, check_local, record_remote, put_verified, put_local, read_verified,
  read_local_bounded, verify_local, read_local_range, transition, reconcile_local_state_bounded,
  inspect, list, remove,
}

pub data Call : Type 0 where
  recording inspecting removing : Binding → Call
  putting_verified : Binding → Bytes → VerificationEvidence → Call
  putting_local : Binding → Bytes → State → Call
  -- with what fails in the second access to the file
  reading_verified : Io → Option (Binding → VerificationEvidence → Bool) → Binding → Call
  reading_local verifying_local : Binding → ℕ → Call
  reading_range : (Bytes → List Bytes) → Binding → ℕ → ℕ → ℕ → Call
  moving : Binding → State → Call
  reconciling : Binding → State → ℕ → Call
  listing : Call

-- An entry in its next state; only one that is verified keeps its evidence.
abbrev pub stepped : ℕ → State → Entry → Entry
stepped now next e = record e {
  state = next;
  verification = if next == verified_clean then e.verification else none;
  updated_at = now;
}

module _ ⦃c : CidCodec⦄ (h : Hashes) where
  -- What the directory is after the call.
  unfoldable pub perform : Io → ℕ → Call → Disk → Disk
  perform io now (recording b) d = (record_remote h io now b d).1
  perform io now (inspecting b) d = (inspect h io b d).1
  perform io now (removing b) d = (remove h io b d).1
  perform io now (putting_verified b body v) d = (put_verified h io now b body v d).1
  perform io now (putting_local b body s) d = (put_local h io now b body s d).1
  perform io now (reading_verified again v b) d = (read_verified h io again now v b d).1
  perform io now (reading_local b n) d = (read_local_bounded h io b n d).1
  perform io now (verifying_local b n) d = (verify_local h io b n d).1
  perform io now (reading_range chunks b o k n) d = (read_local_range h io chunks b o k n d).1
  perform io now (moving b s) d = (transition h io now b s d).1
  perform io now (reconciling b s n) d = (reconcile_local_state_bounded h io now b s n d).1
  perform io now listing d = (list h io d).1

  -- The entries that a call may store.
  pub data Admitted (now : ℕ) (entries : Map Entry) : Call → Text → Entry → Type 0 where
    remote :
        (b n : Binding)
        → normalize_binding b ≡ ok n
        → Admitted now entries (recording b) (binding_id h n) (remote_entry now n)
    verified :
        (b : Binding) (body : Bytes) (v : VerificationEvidence) (e : Entry)
        → check_verified h now b body v ≡ ok e
        → Admitted now entries (putting_verified b body v) (binding_id h e.binding) e
    local :
        (b : Binding) (body : Bytes) (s : State) (e : Entry)
        → check_local h now b body s ≡ ok e
        → Admitted now entries (putting_local b body s) (binding_id h e.binding) e
    spoilt :
        (call : Call) (id : Text) (e : Entry)
        → lookup id entries ≡ some e
        → Admitted now entries call id (moved now stale e)
    transitioned :
        (b : Binding) (next : State) (id : Text) (e : Entry)
        → lookup id entries ≡ some e
        → allowed_transition e.state next ≡ true
        → Admitted now entries (moving b next) id (stepped now next e)
    reconciled :
        (b : Binding) (next : State) (n : ℕ) (id : Text) (e : Entry)
        → lookup id entries ≡ some e
        → is_local_body_state next ≡ true
        → is_local_body_state e.state ≡ true
        → e.body_present ≡ true
        → Admitted now entries (reconciling b next n) id (moved now next e)

  pub data Change (now : ℕ) (call : Call) (entries : Map Entry) : Option Metadata → Type 0 where
    resaved : Change now call entries (some (save entries))
    stored :
        (id : Text) (e : Entry)
        → Admitted now entries call id e
        → Change now call entries (some (save (insert id e entries)))
    deleted : (id : Text) → Change now call entries (some (save (delete id entries)))

  -- The metadata after any number of changes, each to entries that were loaded.
  pub data Becomes (now : ℕ) (call : Call) : Option Metadata → Option Metadata → Type 0 where
    unchanged : (m : Option Metadata) → Becomes now call m m
    changed :
        (m next last : Option Metadata) (entries : Map Entry)
        → load h m ≡ ok entries
        → Change now call entries next
        → Becomes now call next last
        → Becomes now call m last
