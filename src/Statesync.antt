-- ===== src/Statesync.antt =====
-- State sync (internal/statesync): the queue of the chunks of a snapshot.
pub mod Chunks
