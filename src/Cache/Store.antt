-- ===== src/Cache/Store.antt =====
-- The methods of `Store` in cache/store.go. `now` is `time.Now().UTC()`; a verifier accepts or
-- rejects. An entry that the source returns beside an error is left out.
pub mod Capture
pub mod Locked
pub mod Bodies
pub mod Methods
