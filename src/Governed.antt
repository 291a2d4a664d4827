-- ===== src/Governed.antt =====
-- application/governed_execution.py: the gateway's use case, from a request's headers and body to a
-- receipted decision and, for `execute`, to the upstream's answer.
pub mod Service
pub mod Subject
pub mod Listing
pub mod Flow
pub mod Stages
pub mod Lookup
pub mod Returns
pub mod Keeps
pub mod Permit
pub mod Demo
mod Tests
pub mod Outcomes
pub mod Projection
pub mod Binding
pub mod Effects
pub mod Gate
