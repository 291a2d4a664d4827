-- ===== src/Registry.antt =====
-- The agent registry: adapters/registry/postgres.py, its tables, and the grants of domain/models.py.
pub mod Grants
pub mod Tables
pub mod Directory
pub mod Cached
pub mod Files
pub mod Freshness
pub mod Reading
pub mod Rows
pub mod Changes
pub mod Audit
pub mod Revocation
mod Tests
mod FileTests
