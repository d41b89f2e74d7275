-- ===== src/Lib.antt =====
-- MALT keeps local state that decides what a user has published and what the local runtime accepts.
-- This library models the four stores of that state and the merge of backed-up trees, and proves
-- what makes them safe:
--
-- * Journal models journal/store.go, the operation journal. Types has its data, Normalize and Load
--   the checks of a record and of a file (normalizeIntent, normalizeOperation, reloadLocked), and
--   Store the methods: Store/Locked, Store/Batches and Store/Prune are what runs under the lock
--   (appendLocked, transition, the batch methods, PruneCompleted), Store/Methods the public
--   methods. Invariant says what is well-formed and keeps it; Loading is about a file that is read,
--   Pruning about PruneCompleted, Canonical about normalization and saving, History about sequences
--   of operations, and Lifetime about a file from its first call on.
-- * Trust models trust/store.go, the accepted roots, candidates and observed heads: Types, Heads
--   (the functions on one root state), Load and Store (the methods). Candidates, Accepting and
--   Observing are the theorems.
-- * Bucket models bucketsync/service.go with the checks of nodeapi/dataset.go (Node) and the branch
--   names of internal/bucketbranch/branch.go (Branch): Load has reload and its checks, Sync/Locked
--   the callbacks under the lock and Sync/Methods the public methods. Revisions, Workspaces,
--   Stashes and Answers are theorems on one workspace, Saved is about a file that is written and
--   read again, Pushes about a push that is repeated and Exchanges about one that succeeds.
-- * Cache models cache/store.go, the local cache of payload bytes: Types, Disk (the checks of
--   metadata.json, the removal of orphans and the replacement of files), and Store: Store/Locked
--   and Store/Bodies are what runs under the lock, Store/Capture the range that is kept of a
--   stream, and Store/Methods the public methods. Slices and Ranges are about ReadLocalRange,
--   Entries about a file that is loaded, Reading about ReadVerified, Recovery about reading what
--   was put, and Undoing about a put that fails. Calls has the abstract changes of the metadata and
--   the theorems over sequences of calls.
-- * Merge models application/backup/merge.go: Trees decides for each path and encodes the
--   fingerprint, Install writes what was selected. Choices, Places (the directories above a path)
--   and Fingerprints are theorems. The trees that scanPlaintextTree finds are its input, and only
--   the merge of the backup application is modelled.
-- * Base has the shared helpers: texts as lists of runes, Go maps as association lists, results,
--   and in Base/Durable the protocol that the first three stores follow: take the lock, read the
--   file, run the operation on what was read, and replace the file by a rename.
-- * Examples has concrete inputs and the theorems applied to them.
--
-- The parts meet in the files that they keep and in the values that they exchange: a push of Bucket
-- reads and writes its workspace file three times, and sends what Bucket.Node normalized and checks
-- what the remote returned. The stores do not call each other; the cache moves a body through the
-- states that the journal's operations go through, as its callers tell it.
--
-- How the state is modelled. A method is a function of the file, which is none or the document that
-- it decodes to, and returns its outcome and the file after it. `Io` says for each call whether the
-- directory and lock were got, whether the file was readable, and how its replacement ended: done,
-- failed before the rename, or failed after it. `time.Now()` is a number, zero for the zero time;
-- what randomID returns is an argument, none if it failed; the remote is a function of the request.
-- A Store's fields in memory are read anew under the lock by every method, so the file is all of
-- its state. The cache has a directory in place of a file: its metadata, the names under `blobs`
-- and all other names, each a file or a directory; its own `Io` also says which bodies were read,
-- written and removed. A text is a list of code points, where an invalid byte is a code point that
-- is no rune.
--
-- Bounds and fuel. The journal's counter is a uint64 and wraps; the theorems on it ask that it has
-- room. The loop of PruneCompleted runs until nothing changes; the model gives it one round for
-- each record and one more, and the theorems on pruning show that this is enough. Every other loop
-- is structural. The ranges of the cache are uint64 and wrap, sizes are int64; a body that is read
-- is below 2^63 bytes, as the code checks. Go leaves the order of a map's iteration open: the model
-- iterates in the order of the list. sort.Slice is modelled by an insertion sort, which Go matches
-- when the keys differ.
--
-- What is a parameter. go-cid is not part of the repository: CidCodec has the function from a text
-- to the canonical string of the CID it parses to, and the laws that a canonical string parses to
-- itself, has no space around it and is not empty. Hashes has the digest of a binding and the sums
-- of a payload, with the law that the two ways to sum agree on a match. The umask of the process
-- is a function of the permissions that a merge asks for. The proof verifier of the cache is a
-- test of a binding and evidence, and the reads of a stream are any function that cuts it into
-- chunks.
--
-- What is not modelled. The second reading of the clock in ResolveConflict: one time stands for
-- both. The entry that a method of the cache returns beside an error; links and devices among its
-- files. JSON, but for the invalid bytes of the strings of the bucket store, which no other check
-- refuses; what Go's decoder makes of two keys of that file which differ in such bytes only; and
-- validateFreezeFields, which looks at the JSON itself. The system calls under the protocol; a crash
-- in the middle of a system call; the applications, the file system, the transports and the command
-- line, which use these stores.
pub mod Base
pub mod Journal
pub mod Trust
pub mod Bucket
pub mod Cache
pub mod Merge
pub mod Examples
