-- ===== src/Runtime/Parallel.antt =====
-- `execute_parallel` of src/stargraph/runtime/parallel.py, as the loop calls it: with a bus and with
-- no deadline. A branch runs from its start to its end before the next one starts, in input order,
-- which is one of the schedules that asyncio allows.
pub mod Stable
pub mod Laws
use stargraph.Common.{
  ℕ, suc, String, Bool, true, false, Option, none, some, List, [], ◌∷◌, value_error,
  exception_group, ◌==◌, string_keys, ◌||◌, if◌then◌else◌, strip_prefix, is_some,
}
use stargraph.Graph.State.{
  State, Setup, Run, Event, assert_transition, branch_started, branch_completed, branch_cancelled,
}
use stargraph.Graph.State.Exec.{
  Raised, exception, hit, too_deep, Outcome, return, raise, Exec, ◌>>=◌, pure, throw,
}
use stargraph.Graph.Methods.{emit, ask}

abbrev pub Branch : Type 0
Branch = Exec Run State

-- `_branch_started`, `_branch_completed` and `_branch_cancelled`: an event, and a transition that the engine is told, by
-- its kind, the step, the branch and the strategy. An engine that raises there is not heard.
unfoldable pub told : Setup → String → ℕ → String → ℕ → Event → Run → Run
unfolding emit ask
told s kind step strategy i ev r = ask s (assert_transition kind step i strategy ∷ []) (emit ev r)

-- The `except` arms of the wrapper: the branch's exit is told before the exception goes on. A branch
-- that is cancelled has not started in this schedule, so its wrapper sees no CancelledError.
branch_exit : Setup → ℕ → String → ℕ → Outcome State → Exec Run State
unfolding told
branch_exit s step strategy i (return v) r =
    (return v, told s "completed" step strategy i (branch_completed step i v) r)
branch_exit s step strategy i (raise too_deep) r = (raise too_deep, r)
branch_exit s step strategy i (raise e) r =
    (raise e, told s "cancelled" step strategy i (branch_cancelled step i "error") r)

-- `_wrap_with_lifecycle`
unfoldable pub wrapped : Setup → ℕ → String → ℕ → Branch → Branch
unfolding branch_exit told
wrapped s step strategy i factory r =
    let after = factory (told s "started" step strategy i (branch_started step i strategy) r) in
    branch_exit s step strategy i after.0 after.1

-- A failure inside an `asyncio.TaskGroup` comes out as an ExceptionGroup.
group_failure : Raised → Raised
group_failure (exception e) = exception (exception_group "unhandled errors in a TaskGroup")
group_failure (hit a) = exception (exception_group "unhandled errors in a TaskGroup")
group_failure too_deep = too_deep

collect : Outcome State → Exec Run (List State) → Exec Run (List State)
unfolding group_failure
collect (raise e) rest r = (raise (group_failure e), r)
collect (return v) rest r = (do vs ← rest; pure (v ∷ vs)) r

-- `run_branches`: after a failure the branches that have not started never do.
unfoldable pub run_branches : Setup → ℕ → String → ℕ → List Branch → Exec Run (List State)
unfolding wrapped collect
run_branches s step strategy i [] = pure []
run_branches s step strategy i (f ∷ fs) =
    let rest = run_branches s step strategy (suc i) fs in
    λ r. let first = wrapped s step strategy i f r in collect first.0 rest first.1

-- `_race`: the first branch to complete settles it, also when it raised.
unfoldable pub race : Setup → ℕ → String → List Branch → Exec Run (List State)
unfolding wrapped
race s step strategy [] = throw (value_error "_race requires at least one branch")
race s step strategy (f ∷ fs) = do v ← wrapped s step strategy 0 f; pure (v ∷ [])

-- With no deadline `_quorum` raises at one of its two guards, and `int` may raise before.
unfoldable pub execute_parallel : Setup → String → ℕ → List Branch → Exec Run (List State)
unfolding run_branches race
execute_parallel s strategy step factories =
    if strategy == "all"
    then run_branches s step strategy 0 factories
    else if strategy == "any" || strategy == "race"
    then race s step strategy factories
    else if is_some (strip_prefix "quorum:" strategy)
    then throw (value_error "quorum:N requires a deadline_s")
    else throw (value_error "unknown parallel strategy")
