-- ===== src/Serve/Scheduler/Acts/Limits.antt =====
-- The limiter of a graph counts the workers that hold it, and lets one of them run at a time.
use stargraph.Common.{
  ℕ, ◌≤◌, refl, String, Bool, true, false, Option, none, some, List, [], ◌∷◌, arith, Record,
  get_elem?, string_keys, Option-cases, inl, inr,
}
use stargraph.Common.Dict.{Dict, lookup}
use stargraph.Serve.Scheduler.{
  CronSpec, HistoryRow, QueueItem, PendingRun, at_limiter, Worker, Limiter, Scheduler, Env,
  new_scheduler, enqueue, maybe_fire_cron, fire_cron, fire_all, cron_round,
}
use stargraph.Serve.Scheduler.Acts.{
  rows, replay, replay_pending, start, in_background, dispatch, stop_begin, stop_end, Act, starts,
  enqueues, set_run_history, register_cron, polls_cron, dispatches, works, writes, begins_stop,
  ends_stop, cancels_worker, cancels_dispatcher, cancel_at, enqueued, work_at, write_at, act, run,
}
use stargraph.Serve.Scheduler.Steps.{}
use stargraph.Serve.Scheduler.Acts.Holders.{holders, LimitInv, IsLimited, holders-append}
use stargraph.Serve.Scheduler.Acts.Tokens.{
  with_limiter-LimitInv, work-LimitInv, cancel_worker-LimitInv,
}

replay-LimitInv : (ps : List PendingRun) (s : Scheduler) → LimitInv s → LimitInv (replay ps s)
unfolding replay
replay-LimitInv [] s h = h
replay-LimitInv (p ∷ ps) s h = replay-LimitInv ps _ (with_limiter-LimitInv p.graph_id s h)

start-LimitInv : (refused : Bool) (s : Scheduler) → LimitInv s → LimitInv (start refused s)
unfolding start replay_pending
start-LimitInv refused s h g = ground (
  arith,
  h g,
  replay-LimitInv (rows s.store) (record s { running = true; shutdown = false; dispatching = true })
      h g,
)

enqueue-LimitInv :
    (env : Env) (graph_id : String) (params : Record) (key : Option String) (source : String)
    (now : ℕ) (s : Scheduler)
    → LimitInv s
    → LimitInv (enqueued (enqueue env graph_id params key source now s) s)
unfolding enqueued enqueue
enqueue-LimitInv env graph_id params key source now s h g =
    ground (arith, h g, with_limiter-LimitInv graph_id s h g)

fire_cron-LimitInv :
    (env : Env) (spec : CronSpec) (fire_at now : ℕ) (s : Scheduler)
    → LimitInv s
    → LimitInv (fire_cron env spec fire_at now s)
unfolding fire_cron enqueue
fire_cron-LimitInv env spec fire_at now s h g =
    ground (arith, h g, with_limiter-LimitInv spec.graph_id s h g)

fire_all-LimitInv :
    (env : Env) (now : ℕ) (specs : List CronSpec) (s : Scheduler)
    → LimitInv s
    → LimitInv (fire_all env now specs s)
unfolding fire_all maybe_fire_cron
fire_all-LimitInv env now [] s h = h
fire_all-LimitInv env now (spec ∷ specs) s h =
    fire_all-LimitInv env now specs (maybe_fire_cron env now spec s)
      (fire_cron-LimitInv env spec _ now s h)

dispatch-LimitInv :
    (q : List (Option QueueItem)) (s : Scheduler) → LimitInv s → LimitInv (dispatch q s)
unfolding dispatch
dispatch-LimitInv [] s h g = h g
dispatch-LimitInv (none ∷ q) s h g = h g
dispatch-LimitInv (some item ∷ q) s h g =
    let w : Worker = record { item = item; phase = at_limiter } in
    ground (arith, h g, holders-append g s.workers (w ∷ []))

stop_end-LimitInv : (ws : List Worker) (s : Scheduler) → LimitInv s → LimitInv (stop_end ws s)
unfolding stop_end
stop_end-LimitInv [] s h g = ground (arith, h g)
stop_end-LimitInv (w ∷ ws) s h g = h g

act-LimitInv : (env : Env) (a : Act) (s : Scheduler) → LimitInv s → LimitInv (act env a s)
unfolding act cron_round work_at write_at in_background stop_begin cancel_at
act-LimitInv env (starts refused) s h = start-LimitInv refused s h
act-LimitInv env (enqueues g ps key source now) s h = enqueue-LimitInv env g ps key source now s h
act-LimitInv env set_run_history s h = h
act-LimitInv env (register_cron spec) s h = h
act-LimitInv env (polls_cron now) s h =
    λ g. ground (arith, h g, fire_all-LimitInv env now s.cron_specs s h g)
act-LimitInv env dispatches s h = λ g. ground (arith, h g, dispatch-LimitInv s.queue s h g)
act-LimitInv env (works k t) s h = elim (Option-cases (get_elem? s.workers k)) [
  | inl gone ↦ rw gone h
  | inr (w, found) ↦ rw found (work-LimitInv k w w.phase t s found refl h)
]
act-LimitInv env (writes j refused) s h = λ g. ground (arith, h g)
act-LimitInv env begins_stop s h = λ g. ground (arith, h g)
act-LimitInv env ends_stop s h = stop_end-LimitInv s.workers s h
act-LimitInv env (cancels_worker k) s h = elim (Option-cases (get_elem? s.workers k)) [
  | inl gone ↦ rw gone h
  | inr (w, found) ↦ rw found (cancel_worker-LimitInv k w w.phase s found refl h)
]
act-LimitInv env cancels_dispatcher s h = h

run-LimitInv :
    (env : Env) (acts : List Act) (s : Scheduler) → LimitInv s → LimitInv (run env acts s)
unfolding run
run-LimitInv env [] s h = h
run-LimitInv env (a ∷ later) s h = run-LimitInv env later (act env a s) (act-LimitInv env a s h)

new-LimitInv :
    (has_store has_history : Bool) (store : Dict String PendingRun)
    (history : Dict String HistoryRow)
    → LimitInv (new_scheduler has_store has_history store history)
unfolding lookup
new-LimitInv has_store has_history store history g = refl

at_most_one : (l : Option Limiter) (n : ℕ) → IsLimited l n → n ≤ 1
at_most_one none n h = omega arith
at_most_one (some l) n h = h.2

-- However the acts of callers, dispatcher, workers and background tasks follow each other: of the runs of
-- one graph at most one is under way, counting those that failed and are being recorded.
pub one_run_per_graph :
    (env : Env) (acts : List Act) (has_store has_history : Bool) (store : Dict String PendingRun)
    (history : Dict String HistoryRow) (graph_id : String)
    → holders graph_id (run env acts (new_scheduler has_store has_history store history)).workers
      ≤ 1
one_run_per_graph env acts has_store has_history store history g =
    at_most_one _ _ (run-LimitInv env acts _ (new-LimitInv has_store has_history store history) g)
