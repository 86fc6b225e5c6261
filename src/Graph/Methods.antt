-- ===== src/Graph/Methods.antt =====
-- The methods of `GraphRun` (src/stargraph/graph/run.py) that others call while the loop runs:
-- `cancel`, `pause`, `respond` and the snapshot `checkpoint`.
pub mod Laws
pub mod Stable
use stargraph.Common.{
  ℕ, String, Bool, true, false, Option, none, some, List, [], ◌∷◌, ◌++◌, Record, Error,
  runtime_error, if◌then◌else◌, ◌||◌,
}
use stargraph.Graph.State.{
  State, model, dict, no_state, RunState, pending, running, paused, awaiting_input, cancelled,
  Checkpoint, Event, run_cancelled, run_paused, bosun_audit, responded, EngineOp, assert_response,
  Setup, Run,
}
use stargraph.Graph.State.Exec.{Exec, Outcome, ◌>>=◌, ◌>>◌, throw, modify, attempt, pure}

-- `run.bus.send(event)`
unfoldable pub emit : Event → Run → Run
emit ev r = record r { events = r.events ++ ev ∷ [] }

-- What the rules engine is asked, where there is one.
unfoldable pub ask : Setup → List EngineOp → Run → Run
ask s ops r = elim s.engine [ none ↦ r | some _ ↦ record r { engine_ops = r.engine_ops ++ ops } ]

-- `state.model_dump(mode="json")`, for a state that has the method.
abbrev pub dump : State → Record
dump (model fields) = fields
dump (dict fields) = []
dump no_state = []

-- `checkpointer.write(row)`: a row that the driver refuses is not written.
unfoldable pub write_row : (Checkpoint → Option Error) → Checkpoint → Exec Run (Unit {0})
write_row driver row = do
  attempt (driver row)
  modify (λ r. record r { written = r.written ++ row ∷ [] })

-- `GraphRun.checkpoint`
unfoldable pub snapshot : Setup → Run → Checkpoint
snapshot s r = record {
  run_id = s.run_id;
  step = 0;
  branch_id = none;
  parent_step_idx = none;
  graph_hash = s.graph.graph_hash;
  runtime_hash = s.graph.runtime_hash;
  state = dump s.initial_state;
  clips_facts = [];
  last_node = r.node_id;
  next_action = none;
  parent_run_id = s.parent_run_id;
  side_effects_hash = s.args_hash [];
}

abbrev pub can_cancel : RunState → Bool
can_cancel running = true
can_cancel paused = true
can_cancel awaiting_input = true
can_cancel _ = false

abbrev pub is_running : RunState → Bool
is_running running = true
is_running _ = false

abbrev pub is_awaiting : RunState → Bool
is_awaiting awaiting_input = true
is_awaiting _ = false

write_final : Setup → Option (Checkpoint → Option Error) → Exec Run (Unit {0})
unfolding write_row snapshot
write_final s none r = pure tt r
write_final s (some driver) r = write_row driver (snapshot s r) r

-- `GraphRun.cancel`
unfoldable pub cancel : Setup → String → Exec Run (Unit {0})
unfolding emit write_final
cancel s actor r =
    if can_cancel r.state
    then write_final s s.checkpointer
        (record (emit (run_cancelled actor) (record r { cancel_event = true })) {
          state = cancelled;
        })
    else throw (runtime_error "cannot cancel from this state") r

-- `GraphRun.pause`
unfoldable pub pause : String → Exec Run (Unit {0})
unfolding emit
pause actor r =
    if is_running r.state
    then modify (emit (run_paused actor)) (record r { pause_event = true })
    else throw (runtime_error "cannot pause from this state") r

-- `GraphRun.respond`: the answer is asserted before the run goes on.
unfoldable pub respond : Setup → Record → String → Exec Run (Unit {0})
unfolding emit ask
respond s response actor r =
    if is_awaiting r.state
    then modify (λ q. record q { state = running; respond_event = true })
        (emit (bosun_audit (responded actor (s.args_hash response)))
          (ask s (assert_response response actor ∷ []) r))
    else throw (runtime_error "cannot respond from this state") r

-- `GraphRun._rearm_respond_gate`
unfoldable pub rearm : Run → Run
rearm r = record r { respond_event = false }

-- A call that another task makes while the loop waits. Its exceptions go to that task.
pub data Call : Type 0 where
  call_cancel : String → Call
  call_pause : String → Call
  call_respond : Record → String → Call

unfoldable pub call : Setup → Call → Exec Run (Unit {0})
unfolding cancel pause respond
call s (call_cancel actor) = cancel s actor
call s (call_pause actor) = pause actor
call s (call_respond response actor) = respond s response actor

-- The calls that are made in order during one wait of the loop.
unfoldable pub interfere : Setup → List Call → Run → Run
unfolding call
interfere s [] r = r
interfere s (c ∷ cs) r = interfere s cs (call s c r).1
