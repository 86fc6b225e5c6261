-- ===== src/Graph/Loop/Invariant.antt =====
-- The lifecycle of a run: what holds between two waits of the loop, whatever the graph, the rules,
-- the nodes and the other tasks do.
use stargraph.Common.{
  ℕ, ◌+◌, ◌≡◌, ◌∙◌, ◌⊎◌, true, false, some, List, [], ◌∷◌, ◌++◌, arith, class_name, if◌then◌else◌,
}
use mathlib.Core.Path.{subst, sym}
use stargraph.Graph.State.{
  pending, running, paused, awaiting_input, done, cancelled, failed, Event, run_cancelled,
  run_paused, bosun_audit, responded, Setup, Run,
}
use stargraph.Graph.State.Exec.{exception, hit, too_deep, ◌>>=◌}
use stargraph.Graph.State.Exec.Keeps.{}
use stargraph.Graph.Methods.{Call, call_cancel, call_pause, call_respond, call, interfere, emit}
use stargraph.Graph.Methods.Laws.{interfere_inert}
use stargraph.Graph.Methods.Stable.{IsStable, Lifecycle, is_result}
use stargraph.Graph.Loop.{Phase, at_node, at_block, parked, halted, stopped, unwound, Config}

-- How many results a run has told.
abbrev pub results : List Event → ℕ
results [] = 0
results (ev ∷ evs) = (if is_result ev then 1 else 0) + results evs

pub results-snoc :
    (evs : List Event) (ev : Event)
    → results (evs ++ ev ∷ []) ≡ results evs + (if is_result ev then 1 else 0)
results-snoc [] ev = omega arith
results-snoc (x ∷ evs) ev = omega (arith, results-snoc evs ev)

-- The run is running, or it was cancelled and the loop will be told so at its next boundary.
abbrev pub IsUnderWay : Run → Type 0
IsUnderWay r = (r.state ≡ running) ⊎ ((r.state ≡ cancelled) × (r.cancel_event ≡ true))

abbrev pub Between : Run → Type 0
Between r = (results r.events ≡ 0) × IsUnderWay r

-- The run waits for an answer, or was cancelled while it did.
abbrev pub IsParked : Run → Type 0
IsParked r =
    (results r.events ≡ 0)
    × (r.respond_event ≡ false)
    × ((r.state ≡ awaiting_input) ⊎ ((r.state ≡ cancelled) × (r.cancel_event ≡ true)))

call-results : (s : Setup) (c : Call) (r : Run) → results (call s c r).1.events ≡ results r.events
unfolding call ◌>>=◌
call-results s (call_cancel a) r = ground (arith, results-snoc r.events (run_cancelled a))
call-results s (call_pause a) r = ground (arith, results-snoc r.events (run_paused a))
call-results s (call_respond x a) r =
    ground (arith, results-snoc r.events (bosun_audit (responded a (s.args_hash x))))

call-IsUnderWay : (s : Setup) (c : Call) (r : Run) → IsUnderWay r → IsUnderWay (call s c r).1
unfolding call ◌>>=◌
call-IsUnderWay s (call_cancel a) r h = ground arith
call-IsUnderWay s (call_pause a) r h = ground arith
call-IsUnderWay s (call_respond x a) r h = ground arith

pub interfere-Between :
    (s : Setup) (cs : List Call) (r : Run) → Between r → Between (interfere s cs r)
unfolding interfere
interfere-Between s [] r h = h
interfere-Between s (c ∷ cs) r h =
    interfere-Between s cs (call s c r).1 (call-results s c r ∙ h.0, call-IsUnderWay s c r h.1)

emit-Between : (ev : Event) (r : Run) → is_result ev ≡ false → Between r → Between (emit ev r)
unfolding emit
emit-Between ev r e h = ground (arith, results-snoc r.events ev)

abbrev BetweenView : Lifecycle → Type 0
BetweenView l =
    (results l.events ≡ 0)
    × ((l.state ≡ running) ⊎ ((l.state ≡ cancelled) × (l.cancel_event ≡ true)))

pub Between-IsStable : (s : Setup) → IsStable s Between
Between-IsStable s = record {
  quiet = λ r q e h. subst BetweenView (sym e) h;
  sends = emit-Between;
  calls = interfere-Between s;
}

-- Before the loop no result is told and the run is pending.
abbrev pub Fresh : Run → Type 0
Fresh r = (results r.events ≡ 0) × (r.state ≡ pending)

abbrev FreshView : Lifecycle → Type 0
FreshView l = (results l.events ≡ 0) × (l.state ≡ pending)

emit-Fresh : (ev : Event) (r : Run) → is_result ev ≡ false → Fresh r → Fresh (emit ev r)
unfolding emit
emit-Fresh ev r e h = ground (arith, results-snoc r.events ev)

pub Fresh-IsStable : (s : Setup) → IsStable s Fresh
Fresh-IsStable s = record {
  quiet = λ r q e h. subst FreshView (sym e) h;
  sends = emit-Fresh;
  calls = λ cs r h. rw (interfere_inert s cs r (rw h.1)) h;
}

-- What holds in each phase. A run is told to have ended exactly once, and by a return alone; the
-- state and the error that it ends with are those of the summary.
abbrev pub PhaseInv : Phase → Run → Type 0
PhaseInv (at_node id) r = Between r
PhaseInv (at_block block) r = Between r
PhaseInv (parked a anchor) r = IsParked r
PhaseInv (halted sum) r =
    (results r.events ≡ 1)
    × (sum.status ≡ r.state)
    × (sum.error_class ≡ r.error_class)
    × ((r.state ≡ done)
        ⊎ (((r.state ≡ paused) × (r.pause_event ≡ true))
            ⊎ ((r.state ≡ failed) × (r.error_class ≡ some "interrupt_timeout"))))
PhaseInv (stopped (exception e)) r =
    (results r.events ≡ 0)
    × (((r.state ≡ failed) × (r.error_class ≡ some (class_name e))) ⊎ (r.state ≡ pending))
PhaseInv (stopped (hit a)) r = results r.events ≡ 0
PhaseInv (stopped too_deep) r = results r.events ≡ 0
PhaseInv unwound r = (results r.events ≡ 0) × (r.cancel_event ≡ true)

abbrev pub Inv : Config → Type 0
Inv c = PhaseInv c.phase c.run
