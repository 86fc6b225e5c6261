-- ===== src/Serve/Scheduler/Steps.antt =====
-- The tasks of the scheduler, in steps between two of their waits: `start`, `stop`, the dispatcher, the
-- workers of `_run_under_limiter`, and the background writes. An act that the state does not allow
-- changes nothing.
use stargraph.Common.{
  ℕ, suc, ◌-◌, String, Bool, true, false, not, Option, none, some, List, ◌&&◌, class_name, Error,
  node_error, if◌then◌else◌, ltb, string_keys, get_elem?, set, drop_at,
}
use stargraph.Common.Dict.{Dict, lookup, insert, delete}
use stargraph.Graph.State.{RunState, pending, running, awaiting_input, done, cancelled, error}
use stargraph.Serve.Scheduler.{
  FutureState, unsettled, resolved, rejected, Phase, at_limiter, driving, clearing, recording,
  Worker, HistoryRow, Limiter, Scheduler, with_limiter,
}

-- How a run that the scheduler drives ends: `run.start()` returns a summary, or raises the
-- CancelledError of a run that was cancelled, or another exception, such as the CancelledError of a run
-- that is not.
pub data RunEnd : Type 0 where
  returned : RunState → Option String → RunEnd
  was_cancelled : RunEnd
  raised : Error → RunEnd

pub data Ending : Type 0 where
  summary : RunState → Option String → Ending
  exception : Error → Ending

-- `_drive_real_run`
abbrev pub drive_real_run : RunEnd → Ending
drive_real_run (returned status error_class) = summary status error_class
drive_real_run was_cancelled = summary cancelled none
drive_real_run (raised e) = exception e

-- `_run_one`: a graph that nobody registered gives a summary that is done.
unfoldable pub run_one : (registered : Bool) → RunEnd → Ending
run_one registered end = if registered then drive_real_run end else summary done none

-- `_NON_TERMINAL_STATUSES`, and what the history is told in place of one.
unfoldable pub coerced : RunState → RunState
coerced pending = done
coerced running = done
coerced awaiting_input = done
coerced status = status

abbrev pub settle : FutureState → FutureState → FutureState
settle unsettled new = new
settle old new = old

-- A future that is not done takes a new state.
unfoldable pub settled : ℕ → FutureState → List FutureState → List FutureState
settled i new fs = elim (get_elem? fs i) [ none ↦ fs | some old ↦ set fs i (settle old new) ]

-- `limiter` exits.
unfoldable pub release : String → Scheduler → Scheduler
unfolding lookup insert
release g s = elim (lookup g s.limiters) [
  | none ↦ s
  | some l ↦ record s { limiters = insert g (record l { borrowed = l.borrowed - 1 }) s.limiters }
]

-- The worker k enters the limiter of its graph, if a token is left.
unfoldable pub enter_limiter : ℕ → Worker → Option Limiter → Scheduler → Scheduler
unfolding insert
enter_limiter k w none s = s
enter_limiter k w (some l) s =
    if ltb l.borrowed l.total
    then record s {
      limiters = insert w.item.pending.graph_id (record l { borrowed = suc l.borrowed }) s.limiters;
      workers = set s.workers k (record w { phase = driving });
    }
    else s

unfoldable pub acquire : ℕ → Worker → Scheduler → Scheduler
unfolding enter_limiter with_limiter lookup
acquire k w s =
    let s' = with_limiter w.item.pending.graph_id s in
    enter_limiter k w (lookup w.item.pending.graph_id s'.limiters) s'

-- The run of the worker k ends: a summary leaves the limiter at once, an exception holds it.
unfoldable pub settle_run : ℕ → Worker → Ending → Scheduler → Scheduler
unfolding release settled
settle_run k w (summary status error_class) s = release w.item.pending.graph_id (record s {
  futures = settled w.item.future (resolved status) s.futures;
  workers = set s.workers k (record w { phase = clearing false (coerced status) error_class });
})
settle_run k w (exception e) s = record s {
  futures = settled w.item.future (rejected e) s.futures;
  workers = set s.workers k (record w { phase = clearing true error (some (class_name e)) });
}

-- `_clear_pending`: a store that refuses is logged.
unfoldable pub clear : ℕ → Worker → Bool → RunState → Option String → Bool → Scheduler → Scheduler
unfolding delete
clear k w held status error_class refused s = record s {
  store = if s.has_store && not refused then delete w.item.pending.run_id s.store else s.store;
  workers = set s.workers k (record w { phase = recording held status error_class });
}

-- SQL's COALESCE
abbrev pub coalesce : Option String → Option String → Option String
coalesce none old = old
coalesce (some new) old = some new

-- `UPDATE runs_history`: no row, no change.
unfoldable pub update_status :
    String → RunState → Option String → Dict String HistoryRow → Dict String HistoryRow
unfolding lookup insert
update_status run_id status error_class h = elim (lookup run_id h) [
  | none ↦ h
  | some row ↦
      insert run_id
        (record row { status = status; error_class = coalesce error_class row.error_class }) h
]

-- `_record_history_terminal`, and the end of the worker.
unfoldable pub record_terminal :
    ℕ → Worker → RunState → Option String → Bool → Scheduler → Scheduler
unfolding delete update_status
record_terminal k w status error_class refused s =
    let run_id = w.item.pending.run_id in
    record s {
      enqueue_started_at = delete run_id s.enqueue_started_at;
      history =
          if s.has_history && not refused
          then update_status run_id status error_class s.history
          else s.history;
      workers = drop_at s.workers k;
    }

unfoldable pub leave_worker :
    ℕ → Worker → Bool → RunState → Option String → Bool → Scheduler → Scheduler
unfolding record_terminal release
leave_worker k w true status error_class refused s =
    release w.item.pending.graph_id (record_terminal k w status error_class refused s)
leave_worker k w false status error_class refused s =
    record_terminal k w status error_class refused s

-- What other tasks and the outside do in the step of a worker.
pub record Turn : Type 0 where
  pub registered : Bool
  pub end : RunEnd
  pub refused : Bool

-- The next step of the worker k.
unfoldable pub work : ℕ → Worker → Phase → Turn → Scheduler → Scheduler
unfolding acquire settle_run clear leave_worker run_one
work k w at_limiter t s = acquire k w s
work k w driving t s = settle_run k w (run_one t.registered t.end) s
work k w (clearing held status error_class) t s = clear k w held status error_class t.refused s
work k w (recording held status error_class) t s =
    leave_worker k w held status error_class t.refused s

unfoldable pub leave_cancelled : ℕ → Worker → Bool → Scheduler → Scheduler
unfolding release
leave_cancelled k w true s =
    release w.item.pending.graph_id (record s { workers = drop_at s.workers k })
leave_cancelled k w false s = record s { workers = drop_at s.workers k }

-- The task group cancels the worker k, where it waits: before the limiter, in its run, which then raises the
-- CancelledError that goes to the future, or in a write.
unfoldable pub cancel_worker : ℕ → Worker → Phase → Scheduler → Scheduler
unfolding leave_cancelled settled
cancel_worker k w at_limiter s = leave_cancelled k w false s
cancel_worker k w driving s = leave_cancelled k w true (record s {
  futures = settled w.item.future (rejected (node_error "CancelledError" "")) s.futures;
})
cancel_worker k w (clearing held status error_class) s = leave_cancelled k w held s
cancel_worker k w (recording held status error_class) s = leave_cancelled k w held s
