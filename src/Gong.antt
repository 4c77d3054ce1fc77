-- ===== src/Gong.antt =====
-- internal/gong: the client of Gong's API.
pub mod Client
pub mod Origin
