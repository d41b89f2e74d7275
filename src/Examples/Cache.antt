-- ===== src/Examples/Cache.antt =====
-- A payload whose CID is its own text, and what the theorems on the cache say of it.
use mathlib.Core.List.{append-nil}
use malt.Base.{
  err, insert, ◌≡◌, ◌≢◌, ◌↔◌, refl, ap, ◌-◌, ◌^◌, ◌>>=◌, lookup, true, false, none, some, [], ◌∷◌,
  ◌++◌, Any, ℕ, arith, List, Text, text, ok, Option, Map,
}
use malt.Base.Durable.{failed_after_rename}
use malt.Examples.Codec.{plain_cids}
use malt.Cache.Types.{
  io_failed, Bytes, Binding, VerificationEvidence, Entry, Metadata, Disk, Io, Hashes,
  verified_clean, local_dirty, stale, pos, file,
}
use malt.Cache.Disk.{replaceable, body_name, load, save}
use malt.Cache.Store.Capture.{take, drop}
use malt.Cache.Store.Locked.{Done}
use malt.Cache.Store.Bodies.{put_body, read_local_range_locked, verified_stream}
use malt.Cache.Store.Methods.{
  put_verified, put_local, read_verified, read_local_bounded, verified_entry, local_entry,
}
use malt.Cache.Ranges.{returned, read_local_range_locked-verified_stream}
use malt.Cache.Reading.{IsVerified, read_verified-IsVerified}
use malt.Cache.Undoing.{put_body-late_failure}
use malt.Cache.Recovery.{healthy}
use malt.Cache.Recovery.RoundTrips.{read_verified-put_verified, read_local_bounded-put_local}
use malt.Cache.Calls.{putting_verified, putting_local, listing, moving, perform, Becomes}
use malt.Cache.Calls.Runs.{perform-Becomes}
use malt.Cache.Calls.Accepted.{perform-loads}
use malt.Cache.Calls.History.{Event, fresh, run, IsPutOf, run-IsPutOf}

pub same_test : {A : Type 0} → A ↔ A
same_test = (λ a. a, λ a. a)

-- The sum of a body is the body itself.
abbrev pub plain_hashes : Hashes
plain_hashes = record {
  binding_digest = λ b. b.cid;
  sum = λ c body. some body;
  sum_stream = λ c body. some body;
  hash = λ c. c;
  sum_again = λ c body. same_test;
}

abbrev pub place : Binding
place = record {
  dataset_id = text "d";
  branch = text "main";
  root = text "r1";
  revision = 1;
  cid = text "hi!";
  encryption_epoch = 0;
}

abbrev pub payload : Bytes
payload = text "hi!"

abbrev pub proof_list : VerificationEvidence
proof_list = record { profile = text "p"; evidence = 7 ∷ []; verified_at = 5 }

abbrev pub clean_entry : Entry
clean_entry = verified_entry 1 place payload proof_list

abbrev pub dirty_entry : Entry
dirty_entry = local_entry 1 place payload local_dirty

abbrev pub holding : Entry → Disk
holding e = record {
  metadata = some (save ((text "hi!", e) ∷ []));
  blobs = (text "hi!.blob", file payload) ∷ [];
  others = [];
}

put_runs :
    put_verified plain_hashes healthy 1 place payload proof_list fresh
    ≡ (ok clean_entry, holding clean_entry)
unfolding put_verified malt.Cache.Store.Methods.call malt.Base.Text-discrete malt.Base.trim_space
    malt.Base.is_space malt.Base.valid_utf8 malt.Base.contains_rune malt.Examples.Codec.parse_plain
    malt.Cache.Store.Locked.verify_payload_cid malt.Cache.Store.Bodies.put_with_body
    malt.Base.lookup malt.Cache.Disk.write_body malt.Cache.Disk.write_metadata malt.Base.insert
put_runs = refl

stage_runs :
    put_local plain_hashes healthy 1 place payload local_dirty fresh
    ≡ (ok dirty_entry, holding dirty_entry)
unfolding put_local malt.Cache.Store.Methods.call malt.Base.Text-discrete malt.Base.trim_space
    malt.Base.is_space malt.Base.valid_utf8 malt.Base.contains_rune malt.Examples.Codec.parse_plain
    malt.Cache.Types.State-discrete malt.Cache.Store.Locked.verify_payload_cid
    malt.Cache.Store.Bodies.put_with_body malt.Base.lookup malt.Cache.Disk.write_body
    malt.Cache.Disk.write_metadata malt.Base.insert
stage_runs = refl

clean_read :
    (read_verified plain_hashes healthy healthy 2
      (some (λ b v. true))
      place
      (holding clean_entry)).0
    ≡ ok (payload, clean_entry)
unfolding read_verified malt.Cache.Disk.normalize_binding malt.Base.Text-discrete
    malt.Base.trim_space malt.Base.is_space malt.Base.valid_utf8 malt.Base.contains_rune
    malt.Examples.Codec.parse_plain malt.Cache.Store.Methods.with_state save
    malt.Cache.Store.Bodies.read_verified_locked malt.Base.lookup malt.Cache.Types.State-discrete
    malt.Cache.Store.Locked.body_file malt.Cache.Types.ℤ-discrete
    malt.Cache.Store.Locked.verify_payload_cid
clean_read = refl

abbrev pub calls : List Event
calls =
    record { io = healthy; now = 2; made = listing }
    ∷ record { io = healthy; now = 1; made = putting_verified place payload proof_list }
    ∷ []

calls-load :
    load plain_hashes (run plain_hashes calls fresh).metadata ≡ ok ((text "hi!", clean_entry) ∷ [])
unfolding put_verified malt.Cache.Store.Methods.call malt.Base.Text-discrete malt.Base.trim_space
    malt.Base.is_space malt.Base.valid_utf8 malt.Base.contains_rune malt.Examples.Codec.parse_plain
    malt.Cache.Store.Locked.verify_payload_cid malt.Cache.Store.Bodies.put_with_body
    malt.Base.lookup malt.Cache.Disk.write_body malt.Cache.Disk.write_metadata malt.Base.insert
    put_local malt.Cache.Types.State-discrete read_verified malt.Cache.Disk.normalize_binding
    malt.Cache.Store.Methods.with_state save malt.Cache.Store.Bodies.read_verified_locked
    malt.Cache.Store.Locked.body_file malt.Cache.Types.ℤ-discrete load run
    malt.Cache.Store.Methods.list malt.Cache.Disk.reconcile
calls-load = refl

nothing_loads : load plain_hashes fresh.metadata ≡ ok []
unfolding load
nothing_loads = refl

entry_found : lookup (text "hi!") ((text "hi!", clean_entry) ∷ []) ≡ some clean_entry
unfolding lookup malt.Base.Text-discrete
entry_found = refl

abbrev pub late_failure : Io
late_failure = record healthy { writing = failed_after_rename }

run-IsPutOf_example : Any (IsPutOf plain_hashes (text "hi!") clean_entry) calls
run-IsPutOf_example =
    run-IsPutOf plain_hashes calls (λ e. omega (arith, e), (λ e. omega (arith, e), tt))
      ((text "hi!", clean_entry) ∷ []) calls-load (text "hi!") clean_entry entry_found refl

perform-loads_example :
    (after : Map Entry) × (load plain_hashes
        (perform plain_hashes late_failure 1
          (putting_local place payload local_dirty)
          fresh).metadata
      ≡ ok after)
perform-loads_example =
    perform-loads plain_hashes 1 (λ e. omega (arith, e)) late_failure
      (putting_local place payload local_dirty) fresh [] nothing_loads

perform-Becomes_example :
    Becomes plain_hashes 3
      (moving place stale)
      (holding dirty_entry).metadata
      (perform plain_hashes healthy 3 (moving place stale) (holding dirty_entry)).metadata
perform-Becomes_example =
    perform-Becomes plain_hashes 3 healthy (moving place stale) (holding dirty_entry)

read_verified-IsVerified_example :
    IsVerified plain_hashes (λ b v. true) place (holding clean_entry) payload clean_entry
read_verified-IsVerified_example =
    read_verified-IsVerified plain_hashes healthy 2 healthy (λ b v. true) place
      (holding clean_entry) payload clean_entry clean_read

read_local_range_locked-verified_stream_example :
    read_local_range_locked plain_hashes healthy
      (λ body. body ∷ [])
      place
      1
      (2 ^ 64 - 1)
      10
      ((text "hi!", dirty_entry) ∷ [])
      (holding dirty_entry)
    ≡ (verified_stream plain_hashes healthy place 10
          ((text "hi!", dirty_entry) ∷ [])
          (holding dirty_entry)
        >>= λ (whole, e). returned (take (2 ^ 64 - 1) (drop 1 whole)) e)
read_local_range_locked-verified_stream_example =
    read_local_range_locked-verified_stream plain_hashes healthy (λ body. body ∷ []) place 1
      (2 ^ 64 - 1) 10 ((text "hi!", dirty_entry) ∷ []) (holding dirty_entry) append-nil
      (omega arith) (omega arith)

read_verified-put_verified_example :
    (read_verified plain_hashes healthy healthy 2
      (some (λ b v. true))
      place
      (put_verified plain_hashes healthy 1 place payload proof_list fresh).1).0
    ≡ ok (payload, clean_entry)
read_verified-put_verified_example =
    read_verified-put_verified plain_hashes healthy 1 place payload proof_list healthy 2
      (λ b v. true) fresh clean_entry (λ e. omega (arith, e)) (ap (λ p. p.0) put_runs) refl

read_local_bounded-put_local_example :
    (read_local_bounded plain_hashes healthy place 10
      (put_local plain_hashes healthy 1 place payload local_dirty fresh).1).0
    ≡ ok (payload, dirty_entry)
read_local_bounded-put_local_example =
    read_local_bounded-put_local plain_hashes healthy 1 place payload local_dirty 10 fresh
      dirty_entry (λ e. omega (arith, e)) (omega arith) (omega arith) (ap (λ p. p.0) stage_runs)

fresh_replaceable : replaceable (lookup (body_name (text "hi!")) []) ≡ true
unfolding replaceable lookup
fresh_replaceable = refl

nothing_found : lookup {V = Entry} (text "hi!") [] ≡ none
unfolding lookup
nothing_found = refl

put_body-late_failure_example :
    let after = put_body late_failure (text "hi!") dirty_entry payload [] fresh in
    (after.0 ≡ err io_failed)
    × (after.1.metadata ≡ some (save (insert (text "hi!") dirty_entry [])))
    × (lookup (body_name (text "hi!")) after.1.blobs ≡ none)
put_body-late_failure_example =
    put_body-late_failure late_failure (text "hi!") dirty_entry payload [] fresh refl refl refl
      fresh_replaceable nothing_found
