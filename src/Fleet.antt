-- ===== src/Fleet.antt =====
-- The fleet reports of the control plane: control_plane/routes/fleet.py.
pub mod Counter
pub mod Report
mod Tests
