-- ===== src/Control.antt =====
-- control_plane: the operators' routes, over the registry and the receipt query.
pub mod Routes
pub mod Guard
pub mod Wiring
mod Tests
