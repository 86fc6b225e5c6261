-- ===== src/Serve/Lifecycle.antt =====
-- The calls that the server makes for an actor: src/stargraph/serve/lifecycle.py (cancel_run, pause_run)
-- and src/stargraph/serve/respond.py (handle_respond), over the run that the caller hands in.
pub mod Steps
pub mod Laws
use stargraph.Common.{
  String, Bool, true, false, not, Option, none, some, List, [], ◌∷◌, ◌++◌, Record, Error, Result,
  ok, err, capability_error, runtime_error, string_keys, ◌==◌, if◌then◌else◌,
}
use stargraph.Common.Dict.{Dict, lookup}
use stargraph.Security.Capabilities.{Capabilities, has_permission}
use stargraph.Graph.State.{
  RunState, pending, running, paused, awaiting_input, done, cancelled, error, failed, RunSummary,
  Setup, Run,
}
use stargraph.Graph.State.Exec.{
  Exec, Outcome, return, ◌>>=◌, ◌>>◌, lift, throw, pure, attempt, modify,
}
use stargraph.Graph.Methods.{
  Call, call_cancel, call_pause, call_respond, cancel, pause, respond, is_awaiting,
}

-- The fact of a `BosunAuditEvent`.
pub record Audit : Type 0 where
  pub kind : String
  pub actor : String
  pub run_id : String

-- The live run, what the audit sink took, and the statuses in the history.
pub record Desk : Type 0 where
  pub run : Run
  pub audited : List Audit
  pub statuses : Dict String RunState

-- `_check_capability`
unfoldable pub check_capability : Option Capabilities → String → String → Result {0} Unit
unfolding has_permission
check_capability none required actor = ok tt
check_capability (some caps) required actor =
    if has_permission caps required then ok tt else err (capability_error required)

-- `_resolve_run`: a run goes by its setup. The registry is `deps["runs"]`; no caller passes one.
unfoldable pub resolve_run : String → Option Setup → Option (Dict String Setup) → Result Setup
unfolding lookup
resolve_run run_id none none = err (runtime_error "cannot resolve live GraphRun")
resolve_run run_id none (some registry) = elim (lookup run_id registry) [
  | none ↦ err (runtime_error "cannot resolve live GraphRun")
  | some s ↦ ok s
]
resolve_run run_id (some s) registry =
    if s.run_id == run_id then ok s else err (runtime_error "GraphRun handle run_id mismatch")

-- The status that a summary tells.
unfoldable pub reported : RunState → RunState
reported cancelled = failed
reported awaiting_input = paused
reported running = running
reported done = done
reported failed = failed
reported paused = paused
reported pending = failed
reported error = failed

-- `_build_run_summary`
unfoldable pub build_run_summary : Setup → Run → RunSummary
unfolding reported
build_run_summary s r = record {
  run_id = s.run_id;
  graph_hash = s.graph.graph_hash;
  status = reported r.state;
  parent_run_id = s.parent_run_id;
  error_class = none;
  error_cause = none;
}

-- A method of the live run.
unfoldable pub on_run : Exec Run (Unit {0}) → Exec Desk (Unit {0})
on_run m d = let (outcome, run) = m d.run in (outcome, record d { run = run })

-- `_persist_audit`, over `_build_audit_event`: the sink answers with the exception that it raises.
unfoldable pub persist_audit : Option (Audit → Option Error) → Audit → Exec Desk (Unit {0})
unfolding ◌>>=◌
persist_audit none event = pure tt
persist_audit (some sink) event =
    attempt (sink event) >> modify (λ d. record d { audited = d.audited ++ event ∷ [] })

-- `UPDATE runs_history SET status = ? WHERE run_id = ?`: a missing row is not inserted.
unfoldable pub change_status : String → RunState → Dict String RunState → Dict String RunState
change_status run_id status [] = []
change_status run_id status ((key, old) ∷ rows) =
    (if key == run_id then (key, status) else (key, old)) ∷ change_status run_id status rows

-- `run_history.update_status`, where there is a history
unfoldable pub write_status :
    Option (String → RunState → Option Error) → String → RunState → Exec Desk (Unit {0})
unfolding ◌>>=◌ change_status
write_status none run_id status = pure tt
write_status (some store) run_id status =
    attempt (store run_id status)
    >> modify (λ d. record d { statuses = change_status run_id status d.statuses })

-- What the server is set up with.
pub record Wiring : Type 0 where
  pub sink : Option (Audit → Option Error)
  pub history : Option (String → RunState → Option Error)

unfoldable pub summarize : Setup → Exec Desk RunSummary
unfolding build_run_summary
summarize s d = (return (build_run_summary s d.run), d)

-- `cancel_run`
unfoldable pub cancel_run :
    Wiring → Option Capabilities → Option Setup → String → String → Exec Desk RunSummary
unfolding ◌>>=◌ check_capability resolve_run on_run cancel persist_audit write_status summarize
cancel_run w caps given run_id actor =
    lift (check_capability caps "runs:cancel" actor)
    >> (lift (resolve_run run_id given none) >>= λ s.
        on_run (cancel s actor)
        >> (persist_audit w.sink
              (record { kind = "lifecycle_cancel"; actor = actor; run_id = run_id })
            >> (write_status w.history run_id cancelled >> summarize s)))

-- `pause_run`
unfoldable pub pause_run :
    Wiring → Option Capabilities → Option Setup → String → String → Exec Desk RunSummary
unfolding ◌>>=◌ check_capability resolve_run on_run pause persist_audit write_status summarize
pause_run w caps given run_id actor =
    lift (check_capability caps "runs:pause" actor)
    >> (lift (resolve_run run_id given none) >>= λ s.
        on_run (pause actor)
        >> (persist_audit w.sink
              (record { kind = "lifecycle_pause"; actor = actor; run_id = run_id })
            >> (write_status w.history run_id paused >> summarize s)))

await_test : Bool → Exec Desk (Unit {0})
unfolding throw pure
await_test true d = pure tt d
await_test false d = throw (runtime_error "respond invalid in this state") d

-- The test that stands before `run.respond`.
check_awaiting : Exec Desk (Unit {0})
unfolding await_test
check_awaiting d = await_test (is_awaiting d.run.state) d

-- `handle_respond`
unfoldable pub handle_respond :
    Wiring → Option Capabilities → Option Setup → String → Record → String → Exec Desk RunSummary
unfolding ◌>>=◌ check_capability resolve_run check_awaiting on_run respond persist_audit summarize
handle_respond w caps given run_id response actor =
    lift (check_capability caps "runs:respond" actor)
    >> (lift (resolve_run run_id given none) >>= λ s.
        check_awaiting
        >> (on_run (respond s response actor)
            >> (persist_audit w.sink
                  (record { kind = "respond_orchestrated"; actor = actor; run_id = run_id })
                >> summarize s)))

-- The three calls of an actor.
unfoldable pub serve_call :
    Wiring → Option Capabilities → Option Setup → String → Call → Exec Desk RunSummary
unfolding cancel_run pause_run handle_respond
serve_call w caps given run_id (call_cancel actor) = cancel_run w caps given run_id actor
serve_call w caps given run_id (call_pause actor) = pause_run w caps given run_id actor
serve_call w caps given run_id (call_respond response actor) =
    handle_respond w caps given run_id response actor
