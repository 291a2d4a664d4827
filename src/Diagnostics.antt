-- ===== src/Diagnostics.antt =====
-- diagnostics.py and the readiness routes of both applications.
pub mod Checks
pub mod Named
pub mod Readiness
mod Tests
