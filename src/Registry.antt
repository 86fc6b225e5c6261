-- ===== src/Registry.antt =====
-- The registries.
pub mod Tools
pub mod Stores
