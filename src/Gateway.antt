-- ===== src/Gateway.antt =====
-- gateway/routes and gateway/mcp_server.py: how requests reach the governed execution, and how its
-- errors become answers.
pub mod Routes
pub mod Server
pub mod Settings
pub mod Wiring
mod Tests
