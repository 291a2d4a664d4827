-- ===== src/Ledger.antt =====
-- The audit ledger: adapters/ledger/signing.py, ed25519_chain.py, postgres.py and postgres_query.py.
pub mod Encoding
pub mod Hex
pub mod Verify
pub mod Intact
pub mod Documents
pub mod Chain
pub mod Vault
pub mod Export
pub mod Query
pub mod Search
pub mod Writers
mod Tests
