-- ===== src/Runtime.antt =====
-- One tick of a run (src/stargraph/runtime).
pub mod Action
pub mod Mirror
pub mod Merge
pub mod Parallel
pub mod Dispatch
pub mod ToolExec
