-- ===== src/Serve/Scheduler/Acts.antt =====
-- The scheduler as a whole: whatever its tasks and its callers do, one step at a time. An act that the
-- state does not allow changes nothing.
pub mod Held
pub mod Holders
mod Tokens
mod Settled
pub mod Cron
pub mod Limits
pub mod Futures
use stargraph.Common.{
  ℕ, zero, suc, ◌+◌, String, Bool, true, false, not, Option, none, some, List, [], ◌∷◌, ◌++◌, ◌&&◌,
  Record, Result, ok, err, if◌then◌else◌, string_keys, length, get_elem?, set, drop_at,
}
use stargraph.Common.Dict.{Dict, lookup, insert}
use stargraph.Graph.State.{RunState, pending}
use stargraph.Serve.Scheduler.{
  PendingRun, QueueItem, FutureState, unsettled, called_off, Background, persist_pending,
  record_history_pending, Phase, at_limiter, Worker, HistoryRow, CronSpec, Scheduler, Env,
  with_limiter, enqueue, cron_round,
}
use stargraph.Serve.Scheduler.Steps.{Turn, work, cancel_worker, settled}

-- `INSERT OR IGNORE INTO runs_history`
insert_pending : String → String → Dict String HistoryRow → Dict String HistoryRow
unfolding lookup insert
insert_pending run_id source h = elim (lookup run_id h) [
  | some row ↦ h
  | none ↦
      insert run_id (record { status = pending; trigger_source = source; error_class = none }) h
]

-- A background task runs; a store that refuses is logged.
in_background : Background → Bool → Scheduler → Scheduler
unfolding insert insert_pending
in_background task true s = s
in_background (persist_pending p) false s = record s { store = insert p.run_id p s.store }
in_background (record_history_pending run_id graph_id source) false s = record s {
  history = insert_pending run_id source s.history;
}

abbrev pub rows : Dict String PendingRun → List PendingRun
rows [] = []
rows ((k, p) ∷ d) = p ∷ rows d

-- The loop of `_replay_pending`: each row is queued again, with a future that nobody awaits.
replay : List PendingRun → Scheduler → Scheduler
unfolding with_limiter
replay [] s = s
replay (p ∷ ps) s =
    let s' = with_limiter p.graph_id s in
    replay ps (record s' {
      queue = s'.queue ++ some (record { pending = p; future = length s'.futures }) ∷ [];
      futures = s'.futures ++ unsettled ∷ [];
    })

-- `_replay_pending`: a store that refuses is logged.
replay_pending : Bool → Scheduler → Scheduler
unfolding replay
replay_pending refused s = if s.has_store && not refused then replay (rows s.store) s else s

-- `start`, up to the tasks that it creates.
start : Bool → Scheduler → Scheduler
unfolding replay_pending
start refused s =
    if s.running
    then s
    else replay_pending refused (record s { running = true; shutdown = false; dispatching = true })

-- `_dispatcher_loop` takes one item: a worker, or the end of the loop.
dispatch : List (Option QueueItem) → Scheduler → Scheduler
dispatch [] s = s
dispatch (none ∷ queue) s = record s { queue = queue; dispatching = false }
dispatch (some item ∷ queue) s = record s {
  queue = queue;
  workers = s.workers ++ record { item = item; phase = at_limiter } ∷ [];
}

-- `stop` up to its waits, which end when the dispatcher and its workers have.
stop_begin : Scheduler → Scheduler
stop_begin s =
    if s.running
    then record s { running = false; shutdown = true; queue = s.queue ++ none ∷ [] }
    else s

-- The futures of the items that are still in the queue are cancelled.
pub call_off : List (Option QueueItem) → List FutureState → List FutureState
unfolding settled
call_off [] fs = fs
call_off (none ∷ queue) fs = call_off queue fs
call_off (some item ∷ queue) fs = call_off queue (settled item.future called_off fs)

stop_end : List Worker → Scheduler → Scheduler
unfolding call_off
stop_end (w ∷ ws) s = s
stop_end [] s =
    if s.shutdown && not s.dispatching
    then record s { queue = []; futures = call_off s.queue s.futures }
    else s

pub data Act : Type 0 where
  starts : (refused : Bool) → Act
  enqueues : (graph_id : String) → Record → Option String → (source : String) → (now : ℕ) → Act
  set_run_history : Act
  register_cron : CronSpec → Act
  polls_cron : (now : ℕ) → Act
  dispatches : Act
  works : (k : ℕ) → Turn → Act
  writes : (j : ℕ) → (refused : Bool) → Act
  begins_stop : Act
  ends_stop : Act
  -- The task group was cancelled, since a run raised a CancelledError of its own: it cancels a worker, or the dispatcher.
  cancels_worker : (k : ℕ) → Act
  cancels_dispatcher : Act

enqueued : Result ((String × ℕ) × Scheduler) → Scheduler → Scheduler
enqueued (ok (handle, s')) s = s'
enqueued (err e) s = s

unfoldable pub work_at : ℕ → Option Worker → Turn → Scheduler → Scheduler
unfolding work
work_at k none t s = s
work_at k (some w) t s = work k w w.phase t s

write_at : ℕ → Option Background → Bool → Scheduler → Scheduler
unfolding in_background
write_at j none refused s = s
write_at j (some task) refused s =
    in_background task refused (record s { tasks = drop_at s.tasks j })

cancel_at : ℕ → Option Worker → Scheduler → Scheduler
unfolding cancel_worker
cancel_at k none s = s
cancel_at k (some w) s = cancel_worker k w w.phase s

-- One step.
unfoldable pub act : Env → Act → Scheduler → Scheduler
unfolding start enqueued enqueue cron_round dispatch work_at write_at stop_begin stop_end cancel_at
act env (starts refused) s = start refused s
act env (enqueues graph_id params key source now) s =
    enqueued (enqueue env graph_id params key source now s) s
act env set_run_history s = record s { has_history = true }
act env (register_cron spec) s = record s { cron_specs = s.cron_specs ++ spec ∷ [] }
act env (polls_cron now) s = if s.shutdown then s else cron_round env now s
act env dispatches s = if s.dispatching then dispatch s.queue s else s
act env (works k t) s = work_at k (get_elem? s.workers k) t s
act env (writes j refused) s = write_at j (get_elem? s.tasks j) refused s
act env begins_stop s = stop_begin s
act env ends_stop s = stop_end s.workers s
act env (cancels_worker k) s = cancel_at k (get_elem? s.workers k) s
act env cancels_dispatcher s = record s { dispatching = false }

-- A history of the scheduler.
unfoldable pub run : Env → List Act → Scheduler → Scheduler
unfolding act
run env [] s = s
run env (a ∷ later) s = run env later (act env a s)
