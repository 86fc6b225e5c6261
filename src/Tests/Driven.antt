-- ===== src/Tests/Driven.antt =====
-- A run that the loop drives and the scheduler records.
use stargraph.Common.{◌≡◌, refl, true, none, some, List, [], ◌∷◌, int, string_keys}
use stargraph.Common.Dict.{lookup}
use stargraph.Graph.State.{model, outputs, Graph, Setup, RunSummary, done, pending}
use stargraph.Graph.Gates.{check_tool_capabilities, check_node_capability}
use stargraph.Graph.Helpers.{parallel_block_for}
use stargraph.Graph.State.Exec.{pure, ◌>>=◌}
use stargraph.Runtime.Action.{translate_actions}
use stargraph.Runtime.Dispatch.{dispatch_node, lookup_node, next_node_id}
use stargraph.Graph.Loop.{Tick, execute, halted, run_node}
use stargraph.Serve.Scheduler.{
  Env, Scheduler, Worker, HistoryRow, driving, new_scheduler, unsettled,
}
use stargraph.Serve.Scheduler.Steps.{coalesce}
use stargraph.Serve.Scheduler.Acts.{works, run}
use stargraph.Serve.Driven.{returns, history_tells_state}

abbrev graph : Graph
graph = record {
  graph_hash = "g";
  runtime_hash = "r";
  nodes = record { id = "a"; required_capability = none } ∷ [];
  parallel = [];
  migrate = [];
  tools = [];
  get_tool = none;
}

abbrev setup : Setup
setup = record {
  run_id = "run-1";
  graph = graph;
  parent_run_id = none;
  initial_state = model [];
  node_registry = λ id. some (λ st k. outputs (("a", int k) ∷ []));
  checkpointer = some (λ row. none);
  capabilities = none;
  engine = none;
  fact_store = none;
  receipt_sink = none;
  args_hash = λ args. "h";
  fact_id = λ spec. "f";
}

abbrev ticks : List Tick
ticks = record { during = []; waiting = [] } ∷ []

abbrev told : RunSummary
told = record {
  run_id = "run-1";
  graph_hash = "g";
  status = done;
  parent_run_id = none;
  error_class = none;
  error_cause = none;
}

ended : (execute setup 1 ticks).phase ≡ halted told
unfolding execute check_tool_capabilities pure run_node ◌>>=◌ lookup_node check_node_capability
    dispatch_node translate_actions parallel_block_for next_node_id
ended = refl

abbrev env : Env
env = record {
  digest = λ key. key;
  synth_key = λ graph now. graph;
  cron_key = λ trigger fire_at. trigger;
  wall = λ spec t. t;
  next_fire = λ spec base. base;
}

abbrev worker : Worker
worker = record {
  item = record {
    pending = record {
      run_id = "run-1";
      graph_id = "g";
      params = [];
      idempotency_key = "k";
      scheduled_fire = 1;
    };
    future = 0;
  };
  phase = driving;
}

abbrev row : HistoryRow
row = record { status = pending; trigger_source = "manual"; error_class = none }

abbrev busy : Scheduler
busy = record (new_scheduler true true [] (("run-1", row) ∷ [])) {
  running = true;
  dispatching = true;
  limiters = ("g", record { total = 1; borrowed = 1 }) ∷ [];
  futures = unsettled ∷ [];
  workers = worker ∷ [];
}

recorded : lookup "run-1" busy.history ≡ some row
unfolding lookup
recorded = refl

history_tells_state_example :
    let r = (execute setup 1 ticks).run in
    let t = returns told in
    lookup "run-1" (run env (works 0 t ∷ works 0 t ∷ works 0 t ∷ []) busy).history
    ≡ some (record row { status = r.state; error_class = coalesce r.error_class row.error_class })
history_tells_state_example =
    history_tells_state setup 1 ticks told env 0 worker row busy ended refl refl refl recorded
