-- ===== src/Tests/Loop.antt =====
-- The loop on a small graph: three nodes, each of which writes its own name.
use stargraph.Common.{
  ℕ, ◌≡◌, refl, sym, ◌∙◌, ◌≢◌, ◌⊎◌, capability_error, String, true, false, Option, none, some, List,
  [], ◌∷◌, int, string_keys, ◌==◌, if◌then◌else◌,
}
use mathlib.Core.Bool.{false≢true}
use text.Mathlib.TextEquality.{eq_iff}
use stargraph.Common.Dict.{update, insert}
use stargraph.Security.Capabilities.{Capabilities, has_permission}
use stargraph.Ir.Nodes.{NodeSpec, ParallelBlock}
use stargraph.Ir.Actions.{InterruptAction}
use stargraph.Graph.State.{
  State, RunSummary, model, NodeResult, outputs, hit_interrupt, Graph, Setup, Run, new_run, running,
  awaiting_input, bosun_audit, capability_denied,
}
use stargraph.Graph.State.Exec.{return, raise, exception, hit, ◌>>=◌}
use stargraph.Graph.Methods.{Call, call_cancel, call_pause, call_respond, emit}
use stargraph.Graph.Gates.Laws.{denied_node_never_runs}
use stargraph.Graph.Gates.{check_node_capability}
use stargraph.Runtime.Action.{translate_actions}
use stargraph.Graph.Loop.{Config, at_node, at_block, parked, Tick, tick, run_node, execute}
use stargraph.Graph.Loop.Links.{HasDistinctIds}
use stargraph.Graph.Loop.Linear.{HasEnded, rows_after, execute-plain}
use stargraph.Graph.Loop.Cancel.{IsHeld, cancel_stops_node, cancel_lost_at_timeout}
use stargraph.Graph.Loop.Blocks.{IsUnparked, all_block_never_parks}
use stargraph.Runtime.Dispatch.{dispatch_node, lookup_node}
use stargraph.Runtime.Dispatch.Plain.{Bodies, plain}
use stargraph.Runtime.Parallel.{Branch}
use stargraph.Serve.Lifecycle.{Wiring, Desk, serve_call}
use stargraph.Serve.Lifecycle.Laws.{LetThrough, serve_call_guarded}

abbrev node : String → NodeSpec
node id = record { id = id; required_capability = none }

abbrev writes_name : Bodies
writes_name id st k = (id, int k) ∷ []

abbrev block : ParallelBlock
block = record { targets = "b" ∷ "c" ∷ []; join = ""; strategy = "all" }

abbrev graph : Graph
graph = record {
  graph_hash = "g";
  runtime_hash = "r";
  nodes = node "a" ∷ node "b" ∷ node "c" ∷ [];
  parallel = block ∷ [];
  migrate = [];
  tools = [];
  get_tool = none;
}

abbrev ask_for_go : InterruptAction
ask_for_go = record {
  prompt = "go on?";
  interrupt_payload = [];
  requested_capability = none;
  timeout = some 5;
  on_timeout = "goto:b";
}

-- Node c asks a human.
abbrev bodies : String → Option (State → ℕ → NodeResult)
bodies id =
    some (λ st k. if id == "c" then hit_interrupt ask_for_go else outputs (writes_name id st k))

abbrev setup : Setup
setup = record {
  run_id = "run-1";
  graph = graph;
  parent_run_id = none;
  initial_state = model [];
  node_registry = bodies;
  checkpointer = some (λ row. none);
  capabilities = none;
  engine = none;
  fact_store = none;
  receipt_sink = none;
  args_hash = λ args. "h";
  fact_id = λ spec. "f";
}

abbrev quiet : Tick
quiet = record { during = []; waiting = [] }

abbrev cancelled_tick : Tick
cancelled_tick = record { during = call_cancel "ops" ∷ []; waiting = [] }

abbrev ready : Run
ready = record new_run { state = running }

abbrev at_a : Config
at_a = record { run = ready; state = model []; step = 0; phase = at_node "a" }

different : (s t : String) → s == t ≡ false → s ≢ t
different s t h e = absurd (false≢true (sym h ∙ (eq_iff s t).1 e))

distinct_ids : HasDistinctIds (node "a" ∷ node "b" ∷ node "c" ∷ [])
distinct_ids = (
  (different "a" "b" refl, (different "a" "c" refl, tt)),
  ((different "b" "c" refl, tt), (tt, tt)),
)

-- With bodies that all return, the three nodes run in order.
execute-plain_example :
    HasEnded
      (plain writes_name setup)
      (model (("a", int 0) ∷ ("b", int 1) ∷ ("c", int 2) ∷ []))
      3
      (rows_after writes_name setup 0 [] (node "a" ∷ node "b" ∷ node "c" ∷ []))
      (execute (plain writes_name setup) 1 (quiet ∷ quiet ∷ quiet ∷ []))
unfolding update insert
execute-plain_example =
    execute-plain setup writes_name [] (node "a") (node "b" ∷ node "c" ∷ []) refl refl distinct_ids

cancel_stops_node_example : IsHeld (tick setup 1 cancelled_tick at_a).phase
unfolding run_node ◌>>=◌ lookup_node check_node_capability dispatch_node new_run translate_actions
cancel_stops_node_example = cancel_stops_node setup 1 cancelled_tick at_a "a" refl refl

abbrev waiting_run : Run
waiting_run = record new_run { state = awaiting_input }

abbrev waiting_for_go : Config
waiting_for_go = record {
  run = waiting_run;
  state = model [];
  step = 2;
  phase = parked ask_for_go "c";
}

cancel_lost_at_timeout_example :
    let c' =
      tick setup 1 (record { during = []; waiting = call_cancel "ops" ∷ [] }) waiting_for_go in
    (c'.phase ≡ at_node "b") × (c'.run.state ≡ running) × (c'.run.cancel_event ≡ true)
unfolding new_run
cancel_lost_at_timeout_example =
    cancel_lost_at_timeout setup 1 waiting_for_go ask_for_go "c" "ops" "b" "b" 5 refl refl refl refl
      refl refl refl

abbrev caps : Capabilities
caps = record { default_deny = true; granted = [] }

abbrev guarded : NodeSpec
guarded = record { id = "a"; required_capability = some "db.write" }

abbrev guarded_setup : Setup
guarded_setup = record setup {
  graph = record graph { nodes = guarded ∷ [] };
  capabilities = some caps;
}

denied_node_never_runs_example : run_node guarded_setup 1 [] "a" (model []) 0 ready ≡ (
  raise (exception (capability_error "a")),
  emit (bosun_audit (capability_denied "node" "a" ("db.write" ∷ []))) ready,
)
unfolding lookup_node has_permission
denied_node_never_runs_example =
    denied_node_never_runs guarded_setup 1 [] "a" "db.write" guarded caps (model []) 0 ready refl
      refl refl refl

abbrev at_bc : Config
at_bc = record { run = ready; state = model []; step = 1; phase = at_block block }

all_block_never_parks_example : IsUnparked (tick setup 1 quiet at_bc).phase
all_block_never_parks_example = all_block_never_parks setup 1 quiet block at_bc refl refl

abbrev two_branches : List Branch
two_branches = (λ r. (return (model []), r)) ∷ (λ r. (raise (hit ask_for_go), r)) ∷ []

abbrev three_calls : List Call
three_calls = call_cancel "ops" ∷ call_pause "ops" ∷ call_respond [] "ops" ∷ []

abbrev wiring : Wiring
wiring = record { sink = none; history = none }

abbrev desk : Desk
desk = record { run = ready; audited = []; statuses = [] }

serve_call_guarded_example :
    let out = serve_call wiring none (some setup) "run-1" (call_cancel "ops") desk in
    ((out.1 ≡ desk) × ((x : RunSummary) → ¬ (out.0 ≡ return x)))
    ⊎ LetThrough wiring none (some setup) "run-1" (call_cancel "ops") desk out
serve_call_guarded_example =
    serve_call_guarded wiring none (some setup) "run-1" (call_cancel "ops") desk
