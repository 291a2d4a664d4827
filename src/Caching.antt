-- ===== src/Caching.antt =====
-- adapters/token_exchange: the exchanges, and the cache in front of them.
pub mod Tokens
pub mod Lifetime
pub mod Keys
pub mod Freshness
pub mod Exchanges
mod Tests
