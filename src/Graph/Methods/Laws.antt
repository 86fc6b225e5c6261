-- ===== src/Graph/Methods/Laws.antt =====
-- When the methods are accepted, and what they leave alone.
use stargraph.Common.{String, Bool, true, false, List, [], ◌∷◌, ◌≡◌, refl, arith, runtime_error}
use stargraph.Graph.State.{RunState, running, paused, awaiting_input, Setup, Run}
use stargraph.Graph.State.Exec.{raise, exception, ◌>>=◌}
use stargraph.Graph.Methods.{
  Call, call_cancel, call_pause, call_respond, call, interfere, can_cancel, is_running, is_awaiting,
}

abbrev pub accepts : Call → RunState → Bool
accepts (call_cancel _) s = can_cancel s
accepts (call_pause _) s = is_running s
accepts (call_respond _ _) s = is_awaiting s

abbrev pub refused_with : Call → String
refused_with (call_cancel _) = "cannot cancel from this state"
refused_with (call_pause _) = "cannot pause from this state"
refused_with (call_respond _ _) = "cannot respond from this state"

-- A call that the run's state refuses raises a StargraphRuntimeError and changes nothing of the run.
pub call_refused :
    (s : Setup) (c : Call) (r : Run)
    → accepts c r.state ≡ false
    → call s c r ≡ (raise (exception (runtime_error (refused_with c))), r)
unfolding call ◌>>=◌
call_refused s (call_cancel a) r h = ground arith
call_refused s (call_pause a) r h = ground arith
call_refused s (call_respond x a) r h = ground arith

-- No call changes a run that has not started or has ended.
abbrev pub is_inert : RunState → Bool
is_inert running = false
is_inert paused = false
is_inert awaiting_input = false
is_inert _ = true

inert_refuses : (c : Call) (st : RunState) → is_inert st ≡ true → accepts c st ≡ false
inert_refuses (call_cancel a) st h = ground arith
inert_refuses (call_pause a) st h = ground arith
inert_refuses (call_respond x a) st h = ground arith

-- Whatever calls other tasks make, a run that is pending, done, cancelled or failed stays as it is.
pub interfere_inert :
    (s : Setup) (cs : List Call) (r : Run) → is_inert r.state ≡ true → interfere s cs r ≡ r
unfolding interfere
interfere_inert s [] r h = refl
interfere_inert s (c ∷ cs) r h =
    rw (call_refused s c r (inert_refuses c r.state h)) (interfere_inert s cs r h)
