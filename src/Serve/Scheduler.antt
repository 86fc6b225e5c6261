-- ===== src/Serve/Scheduler.antt =====
-- `Scheduler` of src/stargraph/serve/scheduler.py: the queue of runs, the limiter of each graph, the
-- workers, the durable rows of pending runs and the history of runs.
mod Models
pub use Models.{
  PendingRun, QueueItem, FutureState, unsettled, resolved, rejected, called_off, Background,
  persist_pending, record_history_pending, Phase, at_limiter, driving, clearing, recording, Worker,
  HistoryRow, CronSpec, Limiter, Scheduler, Env, new_scheduler,
}
pub mod Steps
pub mod Acts
use stargraph.Common.{
  ℕ, zero, suc, ◌+◌, ◌-◌, String, Bool, true, false, not, Option, none, some, List, [], ◌∷◌, ◌++◌,
  Record, Result, ok, err, runtime_error, class_name, Error, if◌then◌else◌, ltb, leb, string_keys,
  length, or_none, take_chars, set, text_append,
}
use stargraph.Common.Dict.{Dict, lookup, insert, delete}
use stargraph.Graph.State.{RunState, pending, running, paused, awaiting_input, done, error, failed}
use stargraph.Graph.State

-- `_get_limiter`
unfoldable pub with_limiter : String → Scheduler → Scheduler
unfolding lookup insert
with_limiter graph_id s = elim (lookup graph_id s.limiters) [
  | none ↦ record s { limiters = insert graph_id (record { total = 1; borrowed = 0 }) s.limiters }
  | some _ ↦ s
]

-- `_derive_run_id`
unfoldable pub derive_run_id : Env → String → String → String
derive_run_id env graph_id key =
    text_append "run-" (text_append (take_chars 8 graph_id) (text_append "-" (env.digest key)))

abbrev key_or : String → Option String → String
key_or synth none = synth
key_or synth (some key) = elim (or_none key) [ none ↦ synth | some k ↦ k ]

-- What `enqueue` starts in the background.
background : Bool → Bool → PendingRun → String → List Background
background has_store has_history p source =
    (if has_store then persist_pending p ∷ [] else [])
    ++ (if has_history then record_history_pending p.run_id p.graph_id source ∷ [] else [])

add_run : PendingRun → String → Scheduler → Scheduler
unfolding background insert
add_run p source s = record s {
  queue = s.queue ++ some (record { pending = p; future = length s.futures }) ∷ [];
  futures = s.futures ++ unsettled ∷ [];
  enqueue_started_at = insert p.run_id p.scheduled_fire s.enqueue_started_at;
  tasks = s.tasks ++ background s.has_store s.has_history p source;
}

-- `enqueue`, at the time `now`: the run's id and its future.
unfoldable pub enqueue :
    Env
    → String
    → Record
    → Option String
    → String
    → ℕ
    → Scheduler
    → Result ((String × ℕ) × Scheduler)
unfolding with_limiter derive_run_id add_run
enqueue env graph_id params key source now s =
    let k = key_or (env.synth_key graph_id now) key in
    let p : PendingRun = record {
      run_id = derive_run_id env graph_id k;
      graph_id = graph_id;
      params = params;
      idempotency_key = k;
      scheduled_fire = now;
    } in
    if s.running
    then ok ((p.run_id, length s.futures), add_run p source (with_limiter graph_id s))
    else err (runtime_error "Scheduler.enqueue() requires Scheduler.start() to have been called")

-- `_maybe_fire_cron`, by the next tick behind the cursor.
fire_cron : Env → CronSpec → ℕ → ℕ → Scheduler → Scheduler
unfolding enqueue insert
fire_cron env spec fire_at now s =
    if ltb (env.wall spec now) fire_at
    then s
    else elim (enqueue env spec.graph_id spec.params (some (env.cron_key spec.trigger_id fire_at))
        "cron" now s) [
          | err _ ↦ s
          | ok (_, s') ↦ record s' {
            cron_last_fire = insert spec.trigger_id fire_at s'.cron_last_fire;
          }
        ]

abbrev cursor : ℕ → Option ℕ → ℕ
cursor now none = now
cursor now (some last) = last

unfoldable pub maybe_fire_cron : Env → ℕ → CronSpec → Scheduler → Scheduler
unfolding fire_cron lookup
maybe_fire_cron env now spec s =
    fire_cron env spec
      (env.next_fire spec (cursor (env.wall spec now) (lookup spec.trigger_id s.cron_last_fire)))
      now s

-- The `for` of one round of `_cron_loop`.
fire_all : Env → ℕ → List CronSpec → Scheduler → Scheduler
unfolding maybe_fire_cron
fire_all env now [] s = s
fire_all env now (spec ∷ specs) s = fire_all env now specs (maybe_fire_cron env now spec s)

-- One round of `_cron_loop`.
unfoldable pub cron_round : Env → ℕ → Scheduler → Scheduler
unfolding fire_all
cron_round env now s = fire_all env now s.cron_specs s
