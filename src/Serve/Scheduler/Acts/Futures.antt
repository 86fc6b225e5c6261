-- ===== src/Serve/Scheduler/Acts/Futures.antt =====
-- The futures that `enqueue` gives to its callers: who settles them, and when.
use stargraph.Common.{
  any-append, ℕ, ◌≡◌, refl, ap, String, Bool, true, false, Option, none, some, List, [], ◌∷◌, ◌++◌,
  arith, Record, Error, ok, err, get_elem?, length, any, all, if◌then◌else◌, Option-cases, inl, inr,
  string_keys,
}
use mathlib.Core.Path.{subst}
use stargraph.Common.Dict.{Dict}
use stargraph.Serve.Scheduler.{
  CronSpec, HistoryRow, QueueItem, PendingRun, at_limiter, Worker, Scheduler, unsettled, Env,
  new_scheduler, with_limiter, add_run, enqueue, maybe_fire_cron, fire_cron, fire_all, cron_round,
}
use stargraph.Serve.Scheduler.Acts.{
  rows, replay, replay_pending, start, in_background, dispatch, stop_begin, stop_end, Act, starts,
  enqueues, set_run_history, register_cron, polls_cron, dispatches, works, writes, begins_stop,
  ends_stop, cancels_worker, cancels_dispatcher, enqueued, work_at, write_at, act, run,
}
use stargraph.Serve.Scheduler.Steps.{}
use stargraph.Serve.Scheduler.Acts.Held.{
  is_unsettled, carries, works_on, NoLost, call_off-unsettled, add-Kept,
}
use stargraph.Serve.Scheduler.Acts.Settled.{with_limiter-NoLost, work-NoLost}

replay-NoLost : (ps : List PendingRun) (s : Scheduler) → NoLost s → NoLost (replay ps s)
unfolding replay
replay-NoLost [] s h = h
replay-NoLost (p ∷ ps) s h =
    let s1 = with_limiter p.graph_id s in
    let s2 : Scheduler = record s1 {
      queue = s1.queue ++ some (record { pending = p; future = length s1.futures }) ∷ [];
      futures = s1.futures ++ unsettled ∷ [];
    } in
    replay-NoLost ps s2
      (add-Kept p s1.queue s1.futures s1.workers (with_limiter-NoLost p.graph_id s h))

start-NoLost : (refused : Bool) (s : Scheduler) → NoLost s → NoLost (start refused s)
unfolding start replay_pending
start-NoLost refused s h i = ground (
  arith,
  h i,
  replay-NoLost (rows s.store) (record s { running = true; shutdown = false; dispatching = true }) h
      i,
)

add_run-NoLost :
    (p : PendingRun) (source : String) (s : Scheduler) → NoLost s → NoLost (add_run p source s)
unfolding add_run
add_run-NoLost p source s h = add-Kept p s.queue s.futures s.workers h

-- What a call of `enqueue` leaves, if it is let in.
let_in-NoLost :
    (b : Bool) (handle : String × ℕ) (e : Error) (s' s : Scheduler)
    → NoLost s'
    → NoLost s
    → NoLost (enqueued (if b then ok (handle, s') else err e) s)
unfolding enqueued
let_in-NoLost true handle e s' s h' h = h'
let_in-NoLost false handle e s' s h' h = h

enqueue-NoLost :
    (env : Env) (graph_id : String) (params : Record) (key : Option String) (source : String)
    (now : ℕ) (s : Scheduler)
    → NoLost s
    → NoLost (enqueued (enqueue env graph_id params key source now s) s)
unfolding enqueue
enqueue-NoLost env graph_id params key source now s h =
    let_in-NoLost s.running _ _ _ s
      (add_run-NoLost _ source (with_limiter graph_id s) (with_limiter-NoLost graph_id s h)) h

fire_cron-NoLost :
    (env : Env) (spec : CronSpec) (fire_at now : ℕ) (s : Scheduler)
    → NoLost s
    → NoLost (fire_cron env spec fire_at now s)
unfolding fire_cron enqueued
fire_cron-NoLost env spec fire_at now s h i = ground (
  arith,
  h i,
  enqueue-NoLost env spec.graph_id spec.params (some (env.cron_key spec.trigger_id fire_at)) "cron"
      now s h i,
)

fire_all-NoLost :
    (env : Env) (now : ℕ) (specs : List CronSpec) (s : Scheduler)
    → NoLost s
    → NoLost (fire_all env now specs s)
unfolding fire_all maybe_fire_cron
fire_all-NoLost env now [] s h = h
fire_all-NoLost env now (spec ∷ specs) s h =
    fire_all-NoLost env now specs (maybe_fire_cron env now spec s)
      (fire_cron-NoLost env spec _ now s h)

dispatch-NoLost :
    (q : List (Option QueueItem)) (s : Scheduler) → s.queue ≡ q → NoLost s → NoLost (dispatch q s)
unfolding dispatch
dispatch-NoLost [] s e h i = h i
dispatch-NoLost (none ∷ q) s e h i = ground (arith, h i, ap (any (carries i)) e)
dispatch-NoLost (some item ∷ q) s e h i =
    let w : Worker = record { item = item; phase = at_limiter } in
    ground (arith, h i, ap (any (carries i)) e, any-append (works_on i) s.workers (w ∷ []))

stop_end-NoLost :
    (ws : List Worker) (s : Scheduler) → s.workers ≡ ws → NoLost s → NoLost (stop_end ws s)
unfolding stop_end
stop_end-NoLost [] s e h i =
    ground (arith, h i, call_off-unsettled s.queue s.futures i, ap (any (works_on i)) e)
stop_end-NoLost (w ∷ ws) s e h i = h i

-- An act that is no cancellation of a worker.
abbrev pub is_calm : Act → Bool
is_calm (cancels_worker k) = false
is_calm _ = true

act-NoLost :
    (env : Env) (a : Act) (s : Scheduler) → is_calm a ≡ true → NoLost s → NoLost (act env a s)
unfolding act cron_round work_at write_at in_background stop_begin
act-NoLost env (starts refused) s calm h = start-NoLost refused s h
act-NoLost env (enqueues g ps key source now) s calm h = enqueue-NoLost env g ps key source now s h
act-NoLost env set_run_history s calm h = h
act-NoLost env (register_cron spec) s calm h = h
act-NoLost env (polls_cron now) s calm h =
    λ i. ground (arith, h i, fire_all-NoLost env now s.cron_specs s h i)
act-NoLost env dispatches s calm h = λ i. ground (arith, h i, dispatch-NoLost s.queue s refl h i)
act-NoLost env (works k t) s calm h = elim (Option-cases (get_elem? s.workers k)) [
  | inl gone ↦ rw gone h
  | inr (w, found) ↦ rw found (work-NoLost k w w.phase t s found refl h)
]
act-NoLost env (writes j refused) s calm h = λ i. ground (arith, h i)
act-NoLost env begins_stop s calm h =
    λ i. ground (arith, h i, any-append (carries i) s.queue (none ∷ []))
act-NoLost env ends_stop s calm h = stop_end-NoLost s.workers s refl h
act-NoLost env (cancels_worker k) s calm h = cc
act-NoLost env cancels_dispatcher s calm h = λ i. h i

run-NoLost :
    (env : Env) (acts : List Act) (s : Scheduler)
    → all is_calm acts ≡ true
    → NoLost s
    → NoLost (run env acts s)
unfolding run
run-NoLost env [] s calm h = h
run-NoLost env (a ∷ later) s calm h =
    run-NoLost env later (act env a s) (ground arith) (act-NoLost env a s (ground arith) h)

new-NoLost :
    (has_store has_history : Bool) (store : Dict String PendingRun)
    (history : Dict String HistoryRow)
    → NoLost (new_scheduler has_store has_history store history)
new-NoLost has_store has_history store history i h = cc

-- After any sequence of the scheduler's acts in which the task group cancels no worker, as it does when a run raises a
-- CancelledError of its own: when `stop` comes to its end, with the dispatcher and all workers gone, each future that was
-- ever given out is resolved, rejected or cancelled.
pub stop_settles_all :
    (env : Env) (acts : List Act) (has_store has_history : Bool) (store : Dict String PendingRun)
    (history : Dict String HistoryRow) (s : Scheduler)
    → all is_calm acts ≡ true
    → run env acts (new_scheduler has_store has_history store history) ≡ s
    → s.shutdown ≡ true
    → s.dispatching ≡ false
    → s.workers ≡ []
    → (i : ℕ) → is_unsettled (get_elem? (act env ends_stop s).futures i) ≡ false
unfolding act stop_end
stop_settles_all env acts has_store has_history store history s calm r sh d ws i =
    let start_state = new_scheduler has_store has_history store history in
    let kept =
      subst NoLost r
        (run-NoLost env acts start_state calm (new-NoLost has_store has_history store history)) i in
    rw (ws, sh, d)
      (ground (arith, kept, call_off-unsettled s.queue s.futures i, ap (any (works_on i)) ws))
