-- ===== src/Gateway.antt =====
-- internal/gateway: the OAuth gateway in front of the private MCP server.
pub mod Config
pub mod Load
pub mod Claims
pub mod Auth
pub mod Server
pub mod Registration
pub mod Clients
