-- ===== src/Graph/Loop.antt =====
-- `execute` of src/stargraph/graph/loop.py. The `while` loop is a machine whose phases are the
-- loop's waits; a schedule says what other tasks do during each wait.
mod Phases
pub mod Invariant
pub mod Exits
pub mod Preserved
pub mod Cancel
pub mod Blocks
pub mod Links
pub mod Linear
pub use Phases.{Phase, at_node, at_block, parked, halted, stopped, unwound, Config, Stepped}
unfoldable pub use Phases.{
  summary, leave, enter, fail, park, caught, boundary, at_head, after_node, advance, finish_step,
}
use stargraph.Common.{
  ℕ, zero, suc, ◌+◌, String, Bool, true, false, Option, none, some, List, [], ◌∷◌, Error, Result,
  ok, err, key_error, runtime_error, class_name, Value, ◌==◌, string_keys, if◌then◌else◌,
  strip_prefix, or_none,
}
use stargraph.Ir.Actions.{InterruptAction}
use stargraph.Ir.Nodes.{NodeSpec, ParallelBlock}
use stargraph.Graph.State.{
  State, Checkpoint, RunState, pending, running, paused, awaiting_input, done, cancelled, failed,
  Cause, raised_by, timed_out, RunSummary, Event, result, waiting_for_input, interrupt_timeout,
  Setup, Run, new_run,
}
use stargraph.Graph.State.Exec.{
  Raised, exception, hit, too_deep, Outcome, return, raise, Exec, ◌>>=◌, ◌>>◌, pure, throw, lift,
  need, modify,
}
use stargraph.Graph.Methods.{emit, rearm, Call, call, interfere}
use stargraph.Graph.Gates.{check_tool_capabilities, check_node_capability}
use stargraph.Graph.Helpers.{parallel_block_for}
use stargraph.Graph.Helpers.Merge.{merge_branch_results}
use stargraph.Runtime.Parallel.{Branch, execute_parallel}
use stargraph.Runtime.Dispatch.{lookup_node, next_node_id, dispatch_node}

-- One node: the gate, then the tick.
unfoldable pub run_node : Setup → ℕ → List Call → String → State → ℕ → Exec Run Stepped
run_node s fuel calls id state step = do
  node ← need (lookup_node s.graph.nodes id) (key_error id)
  check_node_capability s node
  dispatch_node s fuel calls node state step

-- `_branch_factory` of `_run_parallel_block`, for the targets in order.
block_branch : Setup → ℕ → State → ℕ → String → Branch
unfolding run_node
block_branch s fuel state step target = do
  after ← run_node s fuel [] target state step
  pure after.0

block_branches : Setup → ℕ → State → ℕ → List String → List Branch
unfolding block_branch
block_branches s fuel state step [] = []
block_branches s fuel state step (t ∷ ts) =
    block_branch s fuel state step t ∷ block_branches s fuel state (suc step) ts

-- `_run_parallel_block`
unfoldable pub run_parallel_block :
    Setup → ℕ → List Call → ParallelBlock → State → ℕ → Exec Run Stepped
unfolding block_branches
run_parallel_block s fuel calls block state step = do
  modify (interfere s calls)
  results ← execute_parallel s block.strategy step (block_branches s fuel state step block.targets)
  merged ← lift (merge_branch_results results none)
  pure (merged, or_none block.join)

abbrev pub first_target : List String → String
first_target [] = ""
first_target (t ∷ ts) = t

-- The calls that arrive before an answer does; those behind the answer find the loop gone on.
await_respond : Setup → List Call → Run → Run
unfolding call
await_respond s [] r = r
await_respond s (c ∷ cs) r =
    let r' = (call s c r).1 in
    let rest = await_respond s cs r' in if r'.respond_event then r' else rest

abbrev with_goto : Config → Config
with_goto c = record c { run = record c.run { state = running }; step = c.step + 1 }

abbrev with_halt : ℕ → Config → Config
with_halt seconds c = record c {
  run = record c.run {
    state = failed;
    error_class = some "interrupt_timeout";
    error_cause = some (timed_out seconds);
  };
}

-- `on_timeout[len("goto:"):]`, where the policy is a goto: the run goes on at the target.
time_out_goto : Setup → Option String → Config → Config
unfolding enter fail
time_out_goto s none c = fail (exception (runtime_error "on_timeout has empty goto target")) c
time_out_goto s (some id) c = enter s (some id) (with_goto c)

time_out_policy : Setup → Bool → Option String → ℕ → Config → Config
unfolding leave fail time_out_goto
time_out_policy s true target seconds c = leave s failed (with_halt seconds c)
time_out_policy s false none seconds c =
    fail (exception (runtime_error "on_timeout is not 'halt' or 'goto:<node_id>'")) c
time_out_policy s false (some target) seconds c = time_out_goto s (or_none target) c

-- `_await_respond_or_timeout` after the timer fired, and what `execute` makes of its outcome.
time_out : Setup → InterruptAction → ℕ → Config → Config
unfolding emit time_out_policy
time_out s a seconds c =
    time_out_policy s (a.on_timeout == "halt") (strip_prefix "goto:" a.on_timeout) seconds
      (record c { run = emit (interrupt_timeout c.step a.on_timeout) c.run })

-- What other tasks do during one wait of the loop: `during` a node's body or a block, and `waiting`
-- for an answer. A timer fires behind the calls of `waiting`.
pub record Tick : Type 0 where
  pub during : List Call
  pub waiting : List Call

-- Behind the calls of a wait: on with the answer, or on the timer, or another round with no timer.
answered : Setup → InterruptAction → String → (responded : Bool) → Option ℕ → Config → Config
unfolding enter time_out
answered s a anchor true timeout c =
    enter s (next_node_id s.graph.nodes anchor) (record c { step = c.step + 1 })
answered s a anchor false none c = c
answered s a anchor false (some seconds) c = time_out s a seconds c

wait : Setup → InterruptAction → String → List Call → Config → Config
unfolding await_respond answered
wait s a anchor calls c =
    let r = await_respond s calls c.run in
    answered s a anchor r.respond_event a.timeout (record c { run = r })

-- One phase of the loop.
step_phase : Setup → ℕ → Tick → Phase → Config → Config
unfolding finish_step after_node enter wait
step_phase s fuel t (at_node id) c =
    let (o, r) = run_node s fuel t.during id c.state c.step c.run in
    finish_step s id (after_node s) o (record c { run = r })
step_phase s fuel t (at_block block) c =
    let (o, r) = run_parallel_block s fuel t.during block c.state c.step c.run in
    finish_step s (first_target block.targets) (enter s) o (record c { run = r })
step_phase s fuel t (parked a anchor) c = wait s a anchor t.waiting c
step_phase s fuel t (halted sum) c = c
step_phase s fuel t (stopped e) c = c
step_phase s fuel t unwound c = c

unfoldable pub tick : Setup → ℕ → Tick → Config → Config
unfolding step_phase
tick s fuel t c = step_phase s fuel t c.phase c

-- The loop under a schedule.
unfoldable pub drive : Setup → ℕ → List Tick → Config → Config
unfolding tick
drive s fuel [] c = c
drive s fuel (t ∷ ts) c = drive s fuel ts (tick s fuel t c)

-- The loop's variables before the first round.
abbrev start_config : Setup → Run → Config
start_config s r = record { run = r; state = s.initial_state; step = 0; phase = unwound }

-- The head of the loop. The tool gate stands before the `try`, so its exception leaves the run's
-- state as it is.
gated : NodeSpec → Outcome (Unit {0}) → Config → Config
gated first (return _) c = record c {
  run = record c.run { state = running };
  phase = at_node first.id;
}
gated first (raise e) c = record c { phase = stopped e }

begin_nodes : Setup → List NodeSpec → Run → Config
unfolding gated leave
begin_nodes s [] r = leave s done (record (start_config s r) { run = record r { state = done } })
begin_nodes s (n ∷ ns) r =
    let (o, r') = check_tool_capabilities s r in gated n o (start_config s r')

begin_with : Setup → Option (Checkpoint → Option Error) → Run → Config
unfolding begin_nodes
begin_with s none r = record (start_config s r) {
  phase = stopped (exception (runtime_error "GraphRun has no checkpointer wired"));
}
begin_with s (some _) r = begin_nodes s s.graph.nodes r

-- `execute` up to its first wait.
unfoldable pub begin : Setup → Run → Config
unfolding begin_with
begin s r = begin_with s s.checkpointer r

unfoldable pub execute : Setup → ℕ → List Tick → Config
unfolding begin drive new_run
execute s fuel schedule = drive s fuel schedule (begin s new_run)
