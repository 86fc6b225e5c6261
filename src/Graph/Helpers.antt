-- ===== src/Graph/Helpers.antt =====
-- src/stargraph/graph/_loop_helpers.py: the block that a node heads, and the merge of the states
-- that the branches of a block come to.
pub mod Merge
use stargraph.Common.{
  ℕ, String, Bool, true, false, Option, none, some, List, [], ◌∷◌, ◌==◌, string_keys, find,
}
use stargraph.Ir.Nodes.{ParallelBlock}

abbrev heads : String → List String → Bool
heads id [] = false
heads id (t ∷ ts) = t == id

-- `_parallel_block_for`
unfoldable pub parallel_block_for : List ParallelBlock → Option String → Option ParallelBlock
parallel_block_for blocks none = none
parallel_block_for blocks (some id) = find (λ (b : ParallelBlock). heads id b.targets) blocks
