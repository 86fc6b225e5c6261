-- ===== src/Ir/Nodes.antt =====
-- Nodes, parallel blocks and tools of a graph (src/stargraph/ir/_models.py).
use stargraph.Common.{String, Option, List}

-- `required_capability` is read by `getattr(node, "required_capability", None)`.
pub record NodeSpec : Type 0 where
  pub id : String
  pub required_capability : Option String

pub record ParallelBlock : Type 0 where
  pub targets : List String
  pub join : String
  pub strategy : String

pub record MigrateBlock : Type 0 where
  pub from_hash : String
  pub to_hash : String
