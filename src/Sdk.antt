-- ===== src/Sdk.antt =====
-- sdk: the client of the gateway, the guard in front of an agent's own functions, and the LangChain
-- tools that call through the gateway.
pub mod Client
pub mod Guard
pub mod Tools
pub mod Wire
pub mod Safety
pub mod Refusal
mod Tests
