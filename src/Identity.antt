-- ===== src/Identity.antt =====
-- adapters/identity, adapters/operator_identity and adapters/claims.py: who calls, for whom, and who
-- operates the control plane.
pub mod Claims
pub mod Discovery
pub mod Workload
pub mod Subject
pub mod Operator
pub mod Trust
pub mod SameHuman
pub mod Delegation
pub mod Entitlement
mod Tests
