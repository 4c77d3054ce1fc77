-- ===== src/Mcp.antt =====
-- internal/mcp: the server that answers tools from the store.
pub mod Limits
pub mod Policy
pub mod Json
pub mod Server
pub mod Calls
pub mod Facade
pub mod Requests
pub mod Http
pub mod Participants
