-- ===== src/Replay.antt =====
-- Replay of recorded runs.
pub mod Cassettes
pub mod Counterfactual
pub mod Compare
pub mod History
