-- ===== src/Pm.antt =====
-- The process manager, pm/source.
pub mod Resources
pub mod Overcommit
mod Tests
