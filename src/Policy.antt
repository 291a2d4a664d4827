-- ===== src/Policy.antt =====
-- adapters/policy: the policy engine behind the gateway.
pub mod Opa
pub mod Consent
mod Tests
