-- ===== src/Loader.antt =====
-- The loader, loader/source.
pub mod Capabilities
