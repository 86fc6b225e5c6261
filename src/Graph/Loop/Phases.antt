-- ===== src/Graph/Loop/Phases.antt =====
-- Where `execute` of src/stargraph/graph/loop.py can stand, its ways out of a step, and the boundary
-- behind each step.
use stargraph.Common.{
  ℕ, ◌+◌, String, Bool, true, false, Option, none, some, class_name, string_keys,
}
use stargraph.Ir.Actions.{InterruptAction}
use stargraph.Ir.Nodes.{ParallelBlock}
use stargraph.Graph.State.{
  State, RunState, paused, awaiting_input, done, failed, raised_by, RunSummary, result,
  waiting_for_input, Setup, Run,
}
use stargraph.Graph.State.Exec.{Raised, exception, hit, Outcome, return, raise}
use stargraph.Graph.Methods.{emit, rearm}
use stargraph.Graph.Helpers.{parallel_block_for}

-- Where the loop stands. `parked` waits for an answer to an interrupt, and goes on behind the node
-- `anchor`. The others have left the loop: `halted` by a return, `stopped` by an exception, `unwound`
-- by the CancelledError that a cancelled run raises.
pub data Phase : Type 0 where
  at_node : String → Phase
  at_block : ParallelBlock → Phase
  parked : InterruptAction → (anchor : String) → Phase
  halted : RunSummary → Phase
  stopped : Raised → Phase
  unwound : Phase

pub record Config : Type 0 where
  pub run : Run
  pub state : State
  pub step : ℕ
  pub phase : Phase

-- `_summary`
unfoldable pub summary : Setup → Run → RunState → RunSummary
summary s r status = record {
  run_id = s.run_id;
  graph_hash = s.graph.graph_hash;
  status = status;
  parent_run_id = s.parent_run_id;
  error_class = r.error_class;
  error_cause = r.error_cause;
}

-- `_emit_result` and the return of the summary. The loop passes no other status than done, failed
-- and paused, so the guard of `_emit_result` never raises.
unfoldable pub leave : Setup → RunState → Config → Config
unfolding summary emit
leave s status c =
    let r = emit (result status c.state) c.run in
    record c { run = r; phase = halted (summary s r status) }

-- The end of the loop's body: the next node, or the end of the run.
unfoldable pub enter : Setup → Option String → Config → Config
unfolding leave
enter s (some id) c = record c { phase = at_node id }
enter s none c = leave s done (record c { run = record c.run { state = done } })

-- The outer `except` arms.
unfoldable pub fail : Raised → Config → Config
fail (exception e) c = record c {
  run = record c.run {
    state = failed;
    error_class = some (class_name e);
    error_cause = some (raised_by e);
  };
  phase = stopped (exception e);
}
fail e c = record c { phase = stopped e }

-- The `except _HitInterrupt` arms, up to the wait.
unfoldable pub park : InterruptAction → String → Config → Config
unfolding rearm emit
park a anchor c = record c {
  run =
      emit (waiting_for_input c.step a.prompt a.interrupt_payload a.requested_capability)
        (record (rearm c.run) { state = awaiting_input });
  phase = parked a anchor;
}

-- What a step's exception does: an interrupt parks the run, any other leaves the loop.
unfoldable pub caught : String → Raised → Config → Config
unfolding park fail
caught anchor (hit a) c = park a anchor c
caught anchor e c = fail e c

-- The cancel and pause boundary behind a step, by the two events. Cancel is looked at first.
unfoldable pub boundary : (cancel pause : Bool) → Setup → (Config → Config) → Config → Config
unfolding leave
boundary true pause s go_on c = record c { phase = unwound }
boundary false true s go_on c = leave s paused (record c { run = record c.run { state = paused } })
boundary false false s go_on c = go_on c

unfoldable pub at_head : Setup → Option String → Option ParallelBlock → Config → Config
unfolding enter
at_head s next (some block) c = record c { phase = at_block block }
at_head s next none c = enter s next c

-- Behind a node the loop looks whether the next node heads a parallel block.
unfoldable pub after_node : Setup → Option String → Config → Config
unfolding at_head
after_node s next c = at_head s next (parallel_block_for s.graph.parallel next) c

abbrev pub Stepped : Type 0
Stepped = State × Option String

-- A step that went well: the new state, one more step, and the boundary.
unfoldable pub advance : Setup → (Option String → Config → Config) → Stepped → Config → Config
unfolding boundary
advance s next (state, id) c =
    boundary c.run.cancel_event c.run.pause_event s (next id)
      (record c { state = state; step = c.step + 1 })

unfoldable pub finish_step :
    Setup → String → (Option String → Config → Config) → Outcome Stepped → Config → Config
unfolding advance caught
finish_step s anchor next (return v) c = advance s next v c
finish_step s anchor next (raise e) c = caught anchor e c
