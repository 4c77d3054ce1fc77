-- ===== src/Transcripts.antt =====
-- internal/transcripts: the sync of the transcripts that the store misses.
pub mod Batches
pub mod Response
pub mod Run
pub mod Sync
pub mod Snippet
mod Tests
