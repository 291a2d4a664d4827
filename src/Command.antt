-- ===== src/Command.antt =====
-- cli.py: the commands that set a gateway up and check it.
pub mod Commands
pub mod Agreement
mod Tests
