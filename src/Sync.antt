-- ===== src/Sync.antt =====
-- internal/syncsvc: the runs that copy Gong's records into the local cache.
pub mod Keys
pub mod Run
pub mod Calls
