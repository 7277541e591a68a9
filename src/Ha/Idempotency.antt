-- ===== src/Ha/Idempotency.antt =====
-- internal/ha/idempotency.go: a producer runs once for a key and its response is replayed. The
-- mutex makes `prepareEntry` and `finalizeEntry` atomic; what happens between them is in Threads.
pub mod Eviction
pub mod Store
pub mod Threads
pub mod Safety
pub mod Answers
pub mod Replay
