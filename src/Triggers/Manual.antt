-- ===== src/Triggers/Manual.antt =====
-- `ManualTrigger` of src/stargraph/triggers/manual.py, over the scheduler that it was given.
use stargraph.Common.{ℕ, String, Option, none, some, Record, Result, ok, err, ◌>>=◌, runtime_error}
use stargraph.Serve.Scheduler.{Env, Scheduler, enqueue}

pub record ManualTrigger : Type 0 where
  pub scheduler : Option Scheduler

-- `__init__`
unfoldable pub new_trigger : ManualTrigger
new_trigger = record { scheduler = none }

-- `init`, by what `deps.get("scheduler")` answers
unfoldable pub init : Option Scheduler → ManualTrigger → Result ManualTrigger
init none t = err (runtime_error "ManualTrigger.init(deps) requires deps['scheduler']")
init (some s) t = ok (record t { scheduler = some s })

-- `enqueue`: the run's id, at the time `now`. The future is dropped.
unfoldable pub submit :
    Env → String → Record → Option String → ℕ → ManualTrigger → Result (String × ManualTrigger)
unfolding enqueue
submit env graph_id params key now t = elim t.scheduler [
  | none ↦ err (runtime_error "ManualTrigger.enqueue() requires init(deps) to have been called")
  | some s ↦ do
    ((run_id, future), s') ← enqueue env graph_id params key "manual" now s
    ok (run_id, record t { scheduler = some s' })
]
