-- ===== src/Graph.antt =====
-- The execution of a graph (src/stargraph/graph).
pub mod State
pub mod Methods
pub mod Gates
pub mod Helpers
pub mod Resume
pub mod Loop
pub mod Definition
pub mod Hash
