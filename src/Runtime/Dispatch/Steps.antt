-- ===== src/Runtime/Dispatch/Steps.antt =====
-- The steps of a tick, from the node's body to the checkpoint, as `dispatch_node` of
-- src/stargraph/runtime/dispatch.py makes them.
use stargraph.Common.{
  ℕ, String, Option, none, some, List, [], ◌∷◌, ◌++◌, map, Record, Error, key_error,
  attribute_error, node_error, Result, ◌==◌, string_keys, if◌then◌else◌, find,
}
use stargraph.Common.Dict.{update}
use stargraph.Ir.Actions.{
  Action, ActionObject, goto, halt, parallel, retry, assert, retract, interrupt,
}
use stargraph.Ir.Nodes.{NodeSpec}
use stargraph.Runtime.Action.{RoutingDecision, continue, routed, translate_actions, rule_id_for}
use stargraph.Runtime.Mirror.{step, schedule, retract_step, persist_pinned, Fact}
use stargraph.Graph.State.{
  State, model, dict, no_state, Checkpoint, transition, assert_spec, evaluate, retract_actions,
  Engine, NodeResult, outputs, raises, hit_interrupt, Setup, Run,
}
use stargraph.Graph.State.Exec.{
  hit, return, raise, Exec, ◌>>=◌, ◌>>◌, pure, throw, lift, need, modify, attempt,
}
use stargraph.Graph.Methods.{emit, dump, write_row, Call, interfere}

-- `_lookup_node`
unfoldable pub lookup_node : List NodeSpec → String → Option NodeSpec
lookup_node nodes id = find (λ (n : NodeSpec). n.id == id) nodes

-- `_next_node_id`: the id behind the first node of this id that has a successor.
unfoldable pub next_node_id : List NodeSpec → String → Option String
next_node_id [] id = none
next_node_id (n ∷ []) id = none
next_node_id (n ∷ m ∷ rest) id = if n.id == id then some m.id else next_node_id (m ∷ rest) id

-- The `finally` clause clears the node's id, however the body ends.
unfoldable pub body_outcome : NodeResult → Exec Run Record
body_outcome (outputs out) r = (return out, record r { node_id = "" })
body_outcome (raises e) r = throw e (record r { node_id = "" })
body_outcome (hit_interrupt a) r = (raise (hit a), record r { node_id = "" })

-- Step 1: `calls` are the calls that other tasks make while the body runs.
unfoldable pub run_body : Setup → List Call → NodeSpec → State → ℕ → Exec Run Record
unfolding body_outcome interfere
run_body s calls node state at_step = do
  impl ← need (s.node_registry node.id) (key_error node.id)
  modify (λ r. record r { node_id = node.id; step = at_step })
  modify (interfere s calls)
  body_outcome (impl state at_step)

-- Step 2: `state.model_copy(update=outputs)`, a method of Pydantic models alone.
unfoldable pub model_copy : State → Record → Exec Run State
unfolding update
model_copy (model fields) out = pure (model (update fields out))
model_copy (dict fields) out = throw (attribute_error "model_copy")
model_copy no_state out = throw (attribute_error "model_copy")

-- What step 4 leaves: the actions, and the ids of the rules behind them.
pub record Firing : Type 0 where
  pub actions : List ActionObject
  pub rule_ids : List String

abbrev or_empty : Option (List String) → List String
or_empty none = []
or_empty (some ids) = ids

-- Step 4b is made only where some rule acted.
unfoldable pub retract_consumed : List ActionObject → Run → Run
retract_consumed [] r = r
retract_consumed (o ∷ os) r = record r { engine_ops = r.engine_ops ++ retract_actions ∷ [] }

-- Steps 3 and 4.
unfoldable pub consult_engine : Engine → State → ℕ → Exec Run Firing
unfolding retract_consumed schedule
consult_engine e state at_step r =
    let specs = e.mirror_state state in
    let asked = r.engine_ops ++ (map (λ spec. assert_spec spec at_step) specs ++ evaluate ∷ []) in
    let r' = record r {
      mirror_scheduler = schedule specs step r.mirror_scheduler;
      engine_ops = asked;
    } in
    (do
      actions ← lift (e.actions asked)
      modify (retract_consumed actions)
      pure (record { actions = actions; rule_ids = or_empty (e.last_action_rule_ids asked) }))
      r'

-- With no engine there is no action, and `getattr(None, …)` gives no rule ids.
unfoldable pub consult : Option Engine → State → ℕ → Exec Run Firing
unfolding consult_engine
consult none state at_step = pure (record { actions = []; rule_ids = [] })
consult (some e) state at_step = consult_engine e state at_step

abbrev pub kind_of : RoutingDecision → String
kind_of continue = "continue"
kind_of (routed o) = elim o.action [
  | goto _ ↦ "goto"
  | halt _ ↦ "halt"
  | parallel _ _ _ ↦ "parallel"
  | retry _ _ ↦ "retry"
  | assert _ _ ↦ "assert"
  | retract _ ↦ "retract"
  | interrupt _ ↦ "interrupt"
]

abbrev text_or_empty : Option String → String
text_or_empty none = ""
text_or_empty (some t) = t

abbrev event_target : List NodeSpec → String → RoutingDecision → String
event_target nodes id continue = text_or_empty (next_node_id nodes id)
event_target nodes id (routed o) = elim o.action [
  | goto target ↦ target
  | _ ↦ text_or_empty (next_node_id nodes id)
]

abbrev next_action : RoutingDecision → Option Action
next_action continue = none
next_action (routed o) = some o.action

-- Step 7's row.
unfoldable pub tick_row : Setup → String → State → Record → ℕ → RoutingDecision → Checkpoint
tick_row s id state out at_step d = record {
  run_id = s.run_id;
  step = at_step;
  branch_id = none;
  parent_step_idx = none;
  graph_hash = s.graph.graph_hash;
  runtime_hash = s.graph.runtime_hash;
  state = dump state;
  clips_facts = [];
  last_node = id;
  next_action = next_action d;
  parent_run_id = s.parent_run_id;
  side_effects_hash = s.args_hash out;
}

-- Step 7b.
unfoldable pub attest :
    Option (State → Checkpoint → Option Error) → State → Checkpoint → Exec Run (Unit {0})
attest none entry row = pure tt
attest (some sink) entry row = do
  attempt (sink entry row)
  modify (λ r. record r { receipts = r.receipts ++ row ∷ [] })

unfoldable pub store_facts : List Fact × Result (Unit {0}) → Exec Run (Unit {0})
store_facts (facts, result) = do modify (λ r. record r { pinned = r.pinned ++ facts }); lift result

-- Step 8.
unfoldable pub settle_mirrors : Setup → ℕ → Exec Run (Unit {0})
unfolding store_facts retract_step persist_pinned
settle_mirrors s at_step r =
    let m = retract_step r.mirror_scheduler in
    store_facts (persist_pinned s.fact_id s.run_id at_step s.fact_store m)
      (record r { mirror_scheduler = m })

-- Steps 6 to 8 for a decision. The loop has checked that there is a driver.
unfoldable pub commit :
    Setup → NodeSpec → State → State → Record → Firing → ℕ → Exec Run RoutingDecision
unfolding attest settle_mirrors write_row emit
commit s node entry state out firing at_step = do
  let d = translate_actions firing.actions
  let row = tick_row s node.id state out at_step d
  modify (
      emit (
        transition at_step node.id (event_target s.graph.nodes node.id d)
          (rule_id_for d firing.actions firing.rule_ids) (kind_of d)))
  driver ← need s.checkpointer (node_error "AssertionError" "")
  write_row driver row
  attest s.receipt_sink entry row
  settle_mirrors s at_step
  pure d
