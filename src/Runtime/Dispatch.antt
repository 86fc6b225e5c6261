-- ===== src/Runtime/Dispatch.antt =====
-- `dispatch_node` of src/stargraph/runtime/dispatch.py: the nine steps of a tick at one node.
mod Steps
pub mod Stable
pub mod Plain
pub use Steps.{Firing}
unfoldable pub use Steps.{
  lookup_node, next_node_id, body_outcome, run_body, model_copy, retract_consumed, consult_engine,
  consult, tick_row, attest, store_facts, settle_mirrors, commit,
}
use stargraph.Common.{
  ℕ, zero, suc, ◌+◌, String, Bool, true, false, Option, none, some, List, [], ◌∷◌, ◌++◌, map,
  Record, Error, key_error, attribute_error, node_error, Result, ok, err, ◌==◌, string_keys,
  if◌then◌else◌, find, get_last?, or_none,
}
use stargraph.Common.Dict.{update}
use stargraph.Ir.Actions.{
  Action, ActionObject, goto, halt, parallel, retry, assert, retract, interrupt,
}
use stargraph.Ir.Nodes.{NodeSpec}
use stargraph.Runtime.Action.{RoutingDecision, continue, routed, translate_actions, rule_id_for}
use stargraph.Runtime.Mirror.{AssertSpec, step, schedule, retract_step, persist_pinned, Fact}
use stargraph.Graph.State.{
  State, model, dict, no_state, Checkpoint, Event, transition, EngineOp, assert_spec, evaluate,
  retract_actions, Engine, NodeResult, outputs, raises, hit_interrupt, Setup, Run,
}
use stargraph.Graph.State.Exec.{
  Raised, hit, too_deep, Outcome, return, raise, Exec, ◌>>=◌, ◌>>◌, pure, throw, lift, need, modify,
  stop, attempt,
}
use stargraph.Graph.Methods.{emit, ask, dump, write_row, Call, interfere}
use stargraph.Runtime.Parallel.{Branch, execute_parallel}

-- Steps 1 to 8.
unfoldable pub tick_body :
    Setup → List Call → NodeSpec → State → ℕ → Exec Run (State × RoutingDecision)
unfolding run_body model_copy consult commit
tick_body s calls node entry at_step = do
  out ← run_body s calls node entry at_step
  state ← model_copy entry out
  firing ← consult s.engine state at_step
  d ← commit s node entry state out firing at_step
  pure (state, d)

-- A node's tick, for the branches of a rule's parallel action.
abbrev pub Again : Type 0
Again = NodeSpec → State → ℕ → Exec Run (State × Option String)

-- `_branch_factory`: the branches are numbered from the parent's step.
branch : Setup → Again → State → ℕ → String → Branch
branch s again state at_step target = do
  node ← need (lookup_node s.graph.nodes target) (key_error target)
  after ← again node state at_step
  pure after.0

branches : Setup → Again → State → ℕ → List String → List Branch
unfolding branch
branches s again state at_step [] = []
branches s again state at_step (t ∷ ts) =
    branch s again state at_step t ∷ branches s again state (suc at_step) ts

abbrev or_parent : State → List State → State
or_parent state results = elim (get_last? results) [ none ↦ state | some last ↦ last ]

abbrev pub or_all : String → String
or_all strategy = elim (or_none strategy) [ none ↦ "all" | some t ↦ t ]

-- `_dispatch_parallel`
dispatch_parallel :
    Setup → Again → List String → String → String → State → ℕ → Exec Run (State × Option String)
unfolding branches
dispatch_parallel s again targets join strategy state at_step = do
  results ←
      execute_parallel s (or_all strategy) at_step (branches s again state (suc at_step) targets)
  pure (or_parent state results, or_none join)

-- Step 9.
route : Setup → Again → String → State → ℕ → RoutingDecision → Exec Run (State × Option String)
unfolding dispatch_parallel
route s again id state at_step continue = pure (state, next_node_id s.graph.nodes id)
route s again id state at_step (routed o) = elim o.action [
  | interrupt a ↦ stop (hit a)
  | halt reason ↦ pure (state, none)
  | parallel targets join strategy ↦ dispatch_parallel s again targets join strategy state at_step
  | goto target ↦ pure (state, some target)
  | _ ↦ pure (state, next_node_id s.graph.nodes id)
]

-- `dispatch_node`. The fuel bounds how deep rules may nest parallel actions: a tick whose own
-- decision is not a parallel one needs a fuel of 1.
unfoldable pub dispatch_node :
    Setup → ℕ → List Call → NodeSpec → State → ℕ → Exec Run (State × Option String)
unfolding tick_body route
dispatch_node s zero calls node state at_step r = (raise too_deep, r)
dispatch_node s (suc fuel) calls node state at_step r =
    (do
      after ← tick_body s calls node state at_step
      route s (λ n st k. dispatch_node s fuel [] n st k) node.id after.0 at_step after.1)
      r
