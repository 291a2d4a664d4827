-- ===== src/Routing.antt =====
-- adapters/mcp_upstream/routing.py: one gateway in front of several upstreams.
pub mod Merge
pub mod Answers
pub mod Upstream
pub mod FirstWins
pub mod Table
pub mod Transports
pub mod Refresh
mod Tests
