-- ===== src/Tests/Scheduler.antt =====
-- The scheduler.
use stargraph.Common.{
  ◌+◌, ◌≤◌, ◌≡◌, refl, true, false, none, some, List, [], ◌∷◌, arith, get_elem?, string_keys,
  is_some,
}
use stargraph.Common.Dict.{lookup}
use stargraph.Graph.State.{failed}
use stargraph.Serve.Scheduler.{resolved, Env, Scheduler, CronSpec, PendingRun, new_scheduler}
use stargraph.Serve.Scheduler.Steps.{cancel_worker, Turn, returned, work}
use stargraph.Serve.Scheduler.Acts.{
  Act, starts, enqueues, register_cron, polls_cron, dispatches, works, writes, begins_stop,
  ends_stop, cancels_worker, cancels_dispatcher, act, run,
}
use stargraph.Serve.Scheduler.Acts.Cron.{IsForward, cron_never_fires}
use stargraph.Serve.Scheduler.Acts.Limits.{one_run_per_graph}
use stargraph.Serve.Scheduler.Acts.Holders.{holders}
use stargraph.Serve.Scheduler.Acts.Futures.{stop_settles_all}
use stargraph.Serve.Scheduler.Acts.Held.{is_unsettled}

abbrev env : Env
env = record {
  digest = λ key. key;
  synth_key = λ graph now. graph;
  cron_key = λ trigger fire_at. trigger;
  wall = λ spec t. t + 3600;
  next_fire = λ spec base. base + 60;
}

env-IsForward : IsForward env
env-IsForward spec base = omega arith

abbrev old_row : PendingRun
old_row = record {
  run_id = "run-report-old";
  graph_id = "report";
  params = [];
  idempotency_key = "old";
  scheduled_fire = 3;
}

abbrev finished : Turn
finished = record { registered = true; end = returned failed (some "ValueError"); refused = false }

abbrev nightly : CronSpec
nightly = record { trigger_id = "nightly"; graph_id = "report"; params = [] }

-- A row of an earlier process and a new run of the same graph: the second worker waits.
abbrev morning : List Act
morning =
    starts false
    ∷ enqueues "report" [] (some "a") "manual" 10
    ∷ enqueues "digest" [] none "manual" 11
    ∷ dispatches
    ∷ dispatches
    ∷ works 0 finished
    ∷ works 1 finished
    ∷ []

abbrev fresh : Scheduler
fresh = new_scheduler true true (("run-report-old", old_row) ∷ []) []

one_run_per_graph_example : holders "report" (run env morning fresh).workers ≤ 1
one_run_per_graph_example =
    one_run_per_graph env morning true true (("run-report-old", old_row) ∷ []) [] "report"

second_waits : holders "report" (run env morning fresh).workers ≡ 1
unfolding run act work
second_waits = refl

-- The rest of the day: the runs end one behind the other.
abbrev day : List Act
day =
    starts false
    ∷ enqueues "report" [] (some "a") "manual" 10
    ∷ dispatches
    ∷ works 0 finished
    ∷ works 0 finished
    ∷ works 0 finished
    ∷ works 0 finished
    ∷ begins_stop
    ∷ dispatches
    ∷ works 0 finished
    ∷ works 0 finished
    ∷ works 0 finished
    ∷ works 0 finished
    ∷ dispatches
    ∷ []

abbrev evening : Scheduler
evening = run env day fresh

stopping : (evening.shutdown ≡ true) × (evening.dispatching ≡ false) × (evening.workers ≡ [])
unfolding run act work
stopping = (refl, refl, refl)

stop_settles_all_example : is_unsettled (get_elem? (act env ends_stop evening).futures 1) ≡ false
stop_settles_all_example =
    stop_settles_all env day true true (("run-report-old", old_row) ∷ []) [] evening refl refl
      stopping.0 stopping.1 stopping.2 1

-- An item that stood in the queue when the stop began runs to its end all the same.
queue_is_served : get_elem? evening.futures 1 ≡ some (resolved failed)
unfolding run act work
queue_is_served = refl

-- A worker that waits for its limiter and is cancelled: nobody settles its future any more.
future_is_lost :
    is_unsettled (
      get_elem?
        (run env
          (starts false
            ∷ enqueues "report" [] (some "a") "manual" 10
            ∷ dispatches
            ∷ dispatches
            ∷ cancels_worker 1
            ∷ cancels_worker 0
            ∷ cancels_dispatcher
            ∷ begins_stop
            ∷ ends_stop
            ∷ [])
          fresh).futures
        1)
    ≡ true
unfolding run act cancel_worker
future_is_lost = refl

cron_never_fires_example :
    let s = run env (starts false ∷ register_cron nightly ∷ polls_cron 100 ∷ []) fresh in
    act env (polls_cron 90000) s ≡ s
cron_never_fires_example =
    cron_never_fires env (starts false ∷ register_cron nightly ∷ polls_cron 100 ∷ []) 90000 true
      true (("run-report-old", old_row) ∷ []) [] env-IsForward

-- The row of a finished run comes back when its write is late, and is queued again at the next start.
abbrev late : List Act
late =
    starts false
    ∷ enqueues "report" [] (some "a") "manual" 10
    ∷ dispatches
    ∷ works 0 finished
    ∷ works 0 finished
    ∷ works 0 finished
    ∷ works 0 finished
    ∷ writes 0 false
    ∷ []

late_row_stays :
    is_some (lookup "run-report-a" (run env late (new_scheduler true true [] [])).store) ≡ true
unfolding run act work lookup
late_row_stays = refl
