-- ===== src/Serve/Scheduler/Acts/Cron.antt =====
-- The cron loop of the scheduler: its cursor starts at the time of the poll and moves only when a run
-- is fired.
use stargraph.Common.{
  ℕ, ◌<◌, ◌≡◌, refl, String, Bool, true, false, Option, none, some, List, [], ◌∷◌, arith, Record,
  get_elem?, string_keys,
}
use stargraph.Common.Dict.{Dict, lookup}
use stargraph.Serve.Scheduler.{
  HistoryRow, QueueItem, PendingRun, Phase, at_limiter, driving, clearing, recording, Worker,
  CronSpec, Scheduler, Env, new_scheduler, with_limiter, enqueue, maybe_fire_cron, fire_cron,
  fire_all, cron_round,
}
use stargraph.Serve.Scheduler.Steps.{Turn, work, cancel_worker}
use stargraph.Serve.Scheduler.Acts.{
  rows, replay, replay_pending, start, in_background, dispatch, stop_begin, stop_end, Act, starts,
  enqueues, set_run_history, register_cron, polls_cron, dispatches, works, writes, begins_stop,
  ends_stop, cancels_worker, cancels_dispatcher, cancel_at, enqueued, work_at, write_at, act, run,
}

-- Each call of `next` on a CronSim gives a tick whose reading of the zone's clock is behind the one that the CronSim was
-- made with. Where the clock is set back between the two this is not so.
abbrev pub IsForward : Env → Type 0
IsForward env = (spec : CronSpec) (base : ℕ) → base < env.next_fire spec base

abbrev IsUnfired : Scheduler → Type 0
IsUnfired s = s.cron_last_fire ≡ []

maybe_fire_cron-still :
    (env : Env) (now : ℕ) (spec : CronSpec) (s : Scheduler)
    → IsForward env
    → IsUnfired s
    → maybe_fire_cron env now spec s ≡ s
unfolding maybe_fire_cron fire_cron lookup
maybe_fire_cron-still env now spec s f h = ground (arith, f spec (env.wall spec now))

fire_all-still :
    (env : Env) (now : ℕ) (specs : List CronSpec) (s : Scheduler)
    → IsForward env
    → IsUnfired s
    → fire_all env now specs s ≡ s
unfolding fire_all
fire_all-still env now [] s f h = refl
fire_all-still env now (spec ∷ specs) s f h =
    rw (maybe_fire_cron-still env now spec s f h) (fire_all-still env now specs s f h)

with_limiter-IsUnfired : (g : String) (s : Scheduler) → IsUnfired s → IsUnfired (with_limiter g s)
unfolding with_limiter
with_limiter-IsUnfired g s h = ground arith

replay-IsUnfired : (ps : List PendingRun) (s : Scheduler) → IsUnfired s → IsUnfired (replay ps s)
unfolding replay
replay-IsUnfired [] s h = h
replay-IsUnfired (p ∷ ps) s h = replay-IsUnfired ps _ (with_limiter-IsUnfired p.graph_id s h)

work-IsUnfired :
    (k : ℕ) (w : Worker) (p : Phase) (t : Turn) (s : Scheduler)
    → IsUnfired s
    → IsUnfired (work k w p t s)
unfolding work
work-IsUnfired k w at_limiter t s h = ground arith
work-IsUnfired k w driving t s h = ground arith
work-IsUnfired k w (clearing held status c) t s h = h
work-IsUnfired k w (recording held status c) t s h = ground arith

enqueue-IsUnfired :
    (env : Env) (graph_id : String) (params : Record) (key : Option String) (source : String)
    (now : ℕ) (s : Scheduler)
    → IsUnfired s
    → IsUnfired (enqueued (enqueue env graph_id params key source now s) s)
unfolding enqueued enqueue
enqueue-IsUnfired env graph_id params key source now s h = ground arith

start-IsUnfired : (refused : Bool) (s : Scheduler) → IsUnfired s → IsUnfired (start refused s)
unfolding start replay_pending
start-IsUnfired refused s h = ground (
  arith,
  replay-IsUnfired (rows s.store)
      (record s { running = true; shutdown = false; dispatching = true }) h,
)

dispatch-IsUnfired :
    (q : List (Option QueueItem)) (s : Scheduler) → IsUnfired s → IsUnfired (dispatch q s)
unfolding dispatch
dispatch-IsUnfired [] s h = h
dispatch-IsUnfired (none ∷ q) s h = h
dispatch-IsUnfired (some item ∷ q) s h = h

cancel_worker-IsUnfired :
    (k : ℕ) (w : Worker) (p : Phase) (s : Scheduler)
    → IsUnfired s
    → IsUnfired (cancel_worker k w p s)
unfolding cancel_worker
cancel_worker-IsUnfired k w at_limiter s h = h
cancel_worker-IsUnfired k w driving s h = ground arith
cancel_worker-IsUnfired k w (clearing true status c) s h = ground arith
cancel_worker-IsUnfired k w (clearing false status c) s h = h
cancel_worker-IsUnfired k w (recording true status c) s h = ground arith
cancel_worker-IsUnfired k w (recording false status c) s h = h

act-IsUnfired :
    (env : Env) (a : Act) (s : Scheduler) → IsForward env → IsUnfired s → IsUnfired (act env a s)
unfolding act cron_round work_at write_at in_background stop_begin stop_end cancel_at
act-IsUnfired env (starts refused) s f h = start-IsUnfired refused s h
act-IsUnfired env (enqueues g ps key source now) s f h =
    enqueue-IsUnfired env g ps key source now s h
act-IsUnfired env set_run_history s f h = h
act-IsUnfired env (register_cron spec) s f h = h
act-IsUnfired env (polls_cron now) s f h =
    rw (fire_all-still env now s.cron_specs s f h) (ground arith)
act-IsUnfired env dispatches s f h = ground (arith, dispatch-IsUnfired s.queue s h)
act-IsUnfired env (works k t) s f h =
    elim (get_elem? s.workers k) as (λ w. IsUnfired (work_at k w t s)) [
      | none ↦ h
      | some w ↦ work-IsUnfired k w w.phase t s h
    ]
act-IsUnfired env (writes j refused) s f h = ground arith
act-IsUnfired env begins_stop s f h = ground arith
act-IsUnfired env ends_stop s f h = ground arith
act-IsUnfired env (cancels_worker k) s f h =
    elim (get_elem? s.workers k) as (λ w. IsUnfired (cancel_at k w s)) [
      | none ↦ h
      | some w ↦ cancel_worker-IsUnfired k w w.phase s h
    ]
act-IsUnfired env cancels_dispatcher s f h = h

run-IsUnfired :
    (env : Env) (acts : List Act) (s : Scheduler)
    → IsForward env
    → IsUnfired s
    → IsUnfired (run env acts s)
unfolding run
run-IsUnfired env [] s f h = h
run-IsUnfired env (a ∷ later) s f h =
    run-IsUnfired env later (act env a s) f (act-IsUnfired env a s f h)

-- Where each tick that is computed shows a later reading of the zone's clock than the present one, as in a zone whose
-- clock is never set back: whatever happened before, a poll of the cron loop changes nothing, and no run is ever queued
-- by it. For each registered spec the first poll computes the tick behind the present time, finds that it is not
-- due, and keeps no cursor, and so does every later one.
pub cron_never_fires :
    (env : Env) (acts : List Act) (now : ℕ) (has_store has_history : Bool)
    (store : Dict String PendingRun) (history : Dict String HistoryRow)
    → IsForward env
    → let s = run env acts (new_scheduler has_store has_history store history) in
      act env (polls_cron now) s ≡ s
unfolding act cron_round
cron_never_fires env acts now has_store has_history store history f =
    let s = run env acts (new_scheduler has_store has_history store history) in
    let h = run-IsUnfired env acts (new_scheduler has_store has_history store history) f refl in
    rw (fire_all-still env now s.cron_specs s f h) (ground arith)
