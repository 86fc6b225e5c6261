-- ===== src/Security.antt =====
-- Capability gates (src/stargraph/security).
pub mod Glob
pub mod Capabilities
