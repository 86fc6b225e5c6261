-- ===== src/Serve/Scheduler/Models.antt =====
-- The data of the scheduler (src/stargraph/serve/_scheduler_models.py and the fields of `Scheduler`).
use stargraph.Common.{ℕ, String, Bool, false, Option, List, [], Record, Error}
use stargraph.Common.Dict.{Dict}
use stargraph.Graph.State.{RunState}

pub record PendingRun : Type 0 where
  pub run_id : String
  pub graph_id : String
  pub params : Record
  pub idempotency_key : String
  pub scheduled_fire : ℕ

-- A future is given by its number: its state stands in `futures`.
pub record QueueItem : Type 0 where
  pub pending : PendingRun
  pub future : ℕ

pub data FutureState : Type 0 where
  unsettled : FutureState
  resolved : RunState → FutureState
  rejected : Error → FutureState
  called_off : FutureState

-- The tasks that `enqueue` starts and nobody awaits.
pub data Background : Type 0 where
  persist_pending : PendingRun → Background
  record_history_pending : String → String → String → Background

-- What the history is told at the end of a run.
pub record HistoryRow : Type 0 where
  pub status : RunState
  pub trigger_source : String
  pub error_class : Option String

-- Where `_run_under_limiter` stands. A worker that is clearing or recording after an exception holds
-- its limiter still: the flag says so.
pub data Phase : Type 0 where
  at_limiter : Phase
  driving : Phase
  clearing : Bool → RunState → Option String → Phase
  recording : Bool → RunState → Option String → Phase

pub record Worker : Type 0 where
  pub item : QueueItem
  pub phase : Phase

pub record CronSpec : Type 0 where
  pub trigger_id : String
  pub graph_id : String
  pub params : Record

-- `anyio.CapacityLimiter`, by what anyio documents of it: a number of tokens, of which some are lent. To
-- enter takes a token, or waits until one is back; to leave gives it back.
pub record Limiter : Type 0 where
  pub total : ℕ
  pub borrowed : ℕ

-- `None` in the queue is the sentinel of `stop`. The stores are those that the scheduler writes to, and
-- the flags say whether they are wired.
pub record Scheduler : Type 0 where
  pub queue : List (Option QueueItem)
  pub limiters : Dict String Limiter
  pub running : Bool
  pub shutdown : Bool
  pub dispatching : Bool
  pub has_store : Bool
  pub has_history : Bool
  pub cron_specs : List CronSpec
  pub cron_last_fire : Dict String ℕ
  pub enqueue_started_at : Dict String ℕ
  pub futures : List FutureState
  pub tasks : List Background
  pub workers : List Worker
  pub store : Dict String PendingRun
  pub history : Dict String HistoryRow

-- The hashes, `now_utc.astimezone(zone)` for the zone of a spec, and `next(cronsim.CronSim(expression, base))` over
-- readings of that zone's clock: times are seconds.
pub record Env : Type 0 where
  pub digest : String → String
  pub synth_key : String → ℕ → String
  pub cron_key : String → ℕ → String
  pub wall : CronSpec → ℕ → ℕ
  pub next_fire : CronSpec → ℕ → ℕ

-- `Scheduler.__init__`, over the rows that the stores hold.
abbrev pub new_scheduler :
    (has_store has_history : Bool) → Dict String PendingRun → Dict String HistoryRow → Scheduler
new_scheduler has_store has_history store history = record {
  queue = [];
  limiters = [];
  running = false;
  shutdown = false;
  dispatching = false;
  has_store = has_store;
  has_history = has_history;
  cron_specs = [];
  cron_last_fire = [];
  enqueue_started_at = [];
  futures = [];
  tasks = [];
  workers = [];
  store = store;
  history = history;
}
