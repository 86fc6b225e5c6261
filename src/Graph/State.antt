-- ===== src/Graph/State.antt =====
-- What a run is made of: `GraphRun` of src/stargraph/graph/run.py, the checkpoint and the summary of
-- src/stargraph/checkpoint/protocol.py, and the events of src/stargraph/runtime/events.py that the
-- loop sends. The collaborators that a run is handed are fields of `Setup`.
pub mod Exec
use stargraph.Common.{ℕ, String, Bool, false, Option, none, some, List, [], Record, Error, Result}
use stargraph.Security.Capabilities.{Capabilities, ToolSpec}
use stargraph.Ir.Actions.{Action, ActionObject, InterruptAction}
use stargraph.Ir.Nodes.{NodeSpec, ParallelBlock, MigrateBlock}
use stargraph.Runtime.Mirror.{AssertSpec, MirrorScheduler, new_scheduler, FactStore, Fact}

-- The state that a node reads: a Pydantic model, a plain dict, or None.
pub data State : Type 0 where
  model : Record → State
  dict : Record → State
  no_state : State

pub data RunState : Type 0 where
  pending running paused awaiting_input done cancelled error failed : RunState

-- `str(exc)`, or the text of an interrupt that timed out.
pub data Cause : Type 0 where
  raised_by : Error → Cause
  timed_out : ℕ → Cause

-- `Checkpoint`, less its timestamp. `next_action` is None where the decision was to continue.
pub record Checkpoint : Type 0 where
  pub run_id : String
  pub step : ℕ
  pub branch_id : Option String
  pub parent_step_idx : Option ℕ
  pub graph_hash : String
  pub runtime_hash : String
  pub state : Record
  pub clips_facts : List String
  pub last_node : String
  pub next_action : Option Action
  pub parent_run_id : Option String
  pub side_effects_hash : String

pub record RunSummary : Type 0 where
  pub run_id : String
  pub graph_hash : String
  pub status : RunState
  pub parent_run_id : Option String
  pub error_class : Option String
  pub error_cause : Option Cause

-- What a `BosunAuditEvent` of the runtime says.
pub data AuditFact : Type 0 where
  capability_denied : String → String → List String → AuditFact
  responded : String → String → AuditFact

-- The events that a run puts on its bus, less the run's id and the time. A branch `branch-{i}` is
-- given by its number i.
pub data Event : Type 0 where
  transition : ℕ → String → String → String → String → Event
  result : RunState → State → Event
  waiting_for_input : ℕ → String → Record → Option String → Event
  interrupt_timeout : ℕ → String → Event
  run_cancelled : String → Event
  run_paused : String → Event
  bosun_audit : AuditFact → Event
  branch_started : ℕ → ℕ → String → Event
  branch_completed : ℕ → ℕ → State → Event
  branch_cancelled : ℕ → ℕ → String → Event

-- What the run asks of the rules engine, in order.
pub data EngineOp : Type 0 where
  assert_spec : AssertSpec → ℕ → EngineOp
  evaluate : EngineOp
  retract_actions : EngineOp
  assert_response : Record → String → EngineOp
  assert_transition : String → ℕ → ℕ → String → EngineOp

-- The rules engine answers as a function of all that it was asked. `last_action_rule_ids` is None
-- for an adapter that has no such attribute.
pub record Engine : Type 0 where
  pub mirror_state : State → List AssertSpec
  pub actions : List EngineOp → Result (List ActionObject)
  pub last_action_rule_ids : List EngineOp → Option (List String)

-- What a node's body comes to.
pub data NodeResult : Type 0 where
  outputs : Record → NodeResult
  raises : Error → NodeResult
  hit_interrupt : InterruptAction → NodeResult

pub record Graph : Type 0 where
  pub graph_hash : String
  pub runtime_hash : String
  pub nodes : List NodeSpec
  pub parallel : List ParallelBlock
  pub migrate : List MigrateBlock
  pub tools : List String
  pub get_tool : Option (String → Result ToolSpec)

-- The fields of `GraphRun` that no method assigns. A driver answers a write with the exception that
-- it raises, or none.
pub record Setup : Type 0 where
  pub run_id : String
  pub graph : Graph
  pub parent_run_id : Option String
  pub initial_state : State
  pub node_registry : String → Option (State → ℕ → NodeResult)
  pub checkpointer : Option (Checkpoint → Option Error)
  pub capabilities : Option Capabilities
  pub engine : Option Engine
  pub fact_store : Option FactStore
  pub receipt_sink : Option (State → Checkpoint → Option Error)
  pub args_hash : Record → String
  pub fact_id : AssertSpec → String

-- The fields that change, and what the run has sent and written so far.
pub record Run : Type 0 where
  pub state : RunState
  pub cancel_event : Bool
  pub pause_event : Bool
  pub respond_event : Bool
  pub node_id : String
  pub step : ℕ
  pub mirror_scheduler : MirrorScheduler
  pub error_class : Option String
  pub error_cause : Option Cause
  pub events : List Event
  pub written : List Checkpoint
  pub receipts : List Checkpoint
  pub pinned : List Fact
  pub engine_ops : List EngineOp

-- `GraphRun.__init__`
unfoldable pub new_run : Run
new_run = record {
  state = pending;
  cancel_event = false;
  pause_event = false;
  respond_event = false;
  node_id = "";
  step = 0;
  mirror_scheduler = new_scheduler;
  error_class = none;
  error_cause = none;
  events = [];
  written = [];
  receipts = [];
  pinned = [];
  engine_ops = [];
}
