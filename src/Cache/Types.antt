-- ===== src/Cache/Types.antt =====
-- The data of cache/store.go. A time is a number, zero for the zero time; a `State` that is none of
-- the constants is `unknown`; a CID is its string, empty if it is undefined.
use native.Mathlib.Decide.{ℕ_discrete}
use malt.Base.{◌≡◌, ◌↔◌, ℕ, Bool, Option, some, List, Text, Map, Eq, Result}
use malt.Base.Durable.{WriteOutcome}

abbrev pub Bytes : Type 0
Bytes = List ℕ

-- int64
pub data ℤ : Type 0 where
  pos : ℕ → ℤ
  negsuc : ℕ → ℤ

pub data State : Type 0 where
  unmaterialized_remote verified_clean local_dirty pending_upload : State
  candidate conflicted offline_only stale : State
  unknown : Text → State

unfoldable pub State-discrete : Discrete State
unfolding ℕ_discrete
State-discrete = hlevel ℕ_discrete

unfoldable pub ℤ-discrete : Discrete ℤ
unfolding ℕ_discrete
ℤ-discrete = hlevel ℕ_discrete

instance abbrev pub state_eq : Eq State
state_eq = record { dec = State-discrete }

instance abbrev pub int_eq : Eq ℤ
int_eq = record { dec = ℤ-discrete }

pub record Binding : Type 0 where
  pub dataset_id : Text
  pub branch : Text
  pub root : Text
  pub revision : ℕ
  pub cid : Text
  pub encryption_epoch : ℕ

pub record VerificationEvidence : Type 0 where
  pub profile : Text
  pub evidence : Bytes
  pub verified_at : ℕ

unfoldable pub VerificationEvidence-discrete : Discrete VerificationEvidence
unfolding ℕ_discrete
VerificationEvidence-discrete = hlevel ℕ_discrete

-- sameEvidence
instance abbrev pub evidence_eq : Eq VerificationEvidence
evidence_eq = record { dec = VerificationEvidence-discrete }

pub record Entry : Type 0 where
  pub binding : Binding
  pub state : State
  pub verification : Option VerificationEvidence
  pub body_present : Bool
  pub size : ℤ
  pub updated_at : ℕ

-- What metadata.json decodes to: the map may be null.
pub record Metadata : Type 0 where
  pub version : ℕ
  pub entries : Option (Map Entry)

abbrev pub metadata_version : ℕ
metadata_version = 1

-- `joined` is errors.Join.
pub data Error : Type 0 where
  miss binding_mismatch not_verified corrupt invalid_state body_too_large : Error
  missing_names missing_cids bad_root bad_payload : Error
  incomplete_evidence payload_mismatch no_verifier unproved : Error
  invalid_metadata unsupported_version mismatched_identity capture_panic io_failed : Error
  joined : Error → Error → Error

abbrev pub Outcome : Type 0 → Type 0
Outcome = Result Error

-- What stands under a name of a directory.
pub data Node : Type 0 where
  file : Bytes → Node
  directory : Node

-- The cache's directory: metadata.json, the directory `blobs`, and every other name.
pub record Disk : Type 0 where
  pub metadata : Option Metadata
  pub blobs : Map Node
  pub others : Map Node

-- What fails in one call.
pub record Io : Type 0 where
  -- the directory was made and the lock taken
  pub prepared : Bool
  -- a metadata file that is there was read, protected and decoded
  pub readable : Bool
  -- the two directories were listed
  pub blobs_listed : Bool
  pub others_listed : Bool
  -- a name that nothing refers to was removed
  pub swept : Text → Bool
  -- the body was opened, examined and read
  pub body_readable : Bool
  -- the body was removed
  pub removed : Bool
  pub body_writing : WriteOutcome
  pub writing : WriteOutcome

-- json, sha256 and hex, and go-cid's and go-multihash's sums, of which the cache uses that the two
-- ways to check a payload agree.
pub record Hashes : Type 0 where
  -- the digest of a binding
  pub binding_digest : Binding → Text
  -- c.Prefix().Sum(body)
  pub sum : Text → Bytes → Option Text
  -- the multihash of a stream, with the function and length of c
  pub sum_stream : Text → Bytes → Option Bytes
  -- c.Hash()
  pub hash : Text → Bytes
  pub sum_again :
      (c : Text) (body : Bytes) → (sum c body ≡ some c) ↔ (sum_stream c body ≡ some (hash c))
