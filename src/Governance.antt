-- ===== src/Governance.antt =====
-- internal/governance: the customer lists that keep calls away from AI, and how names are matched.
pub mod Name
pub mod Match
pub mod Config
pub mod Audit
pub mod Guard
pub mod Ingest
mod Tests
