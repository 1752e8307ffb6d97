-- ===== src/Loader/Capabilities.antt =====
-- The kernel capabilities of a program, loader/source/ldr_capabilities.cpp.
pub mod Ids
pub mod Fields
pub mod Classes
pub mod Validation
pub mod Permits
pub mod Acceptance
pub mod Decision
pub mod Flags
mod Tests
