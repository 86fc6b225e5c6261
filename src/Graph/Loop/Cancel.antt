-- ===== src/Graph/Loop/Cancel.antt =====
-- Where a cancel is observed: at the first boundary behind the node or the block during which it
-- came, and not behind a wait for an answer.
use stargraph.Common.{
  ℕ, ◌+◌, ◌≡◌, refl, String, Bool, true, false, Option, none, some, [], ◌∷◌, arith, strip_prefix,
  or_none, ◌==◌, string_keys,
}
use mathlib.Core.Path.{subst, sym}
use stargraph.Ir.Actions.{InterruptAction}
use stargraph.Graph.State.{running, awaiting_input, Setup, Run}
use stargraph.Graph.State.Exec.{Raised, exception, hit, too_deep, Outcome, return, raise, ◌>>=◌}
use stargraph.Graph.Methods.{Call, call_cancel, call, emit}
use stargraph.Graph.Loop.{
  Phase, at_node, at_block, parked, halted, stopped, unwound, Config, enter, fail, park, caught,
  boundary, after_node, Stepped, finish_step, run_node, await_respond, answered, time_out_goto,
  time_out_policy, time_out, Tick, wait, step_phase, tick,
}

-- The loop neither goes to a node nor to a block, nor has it returned.
abbrev pub IsHeld : Phase → Type 0
IsHeld (at_node id) = ⊥
IsHeld (at_block block) = ⊥
IsHeld (parked a anchor) = Unit
IsHeld (halted sum) = ⊥
IsHeld (stopped e) = Unit
IsHeld unwound = Unit

boundary-IsHeld :
    (s : Setup) (go_on : Config → Config) (cancel pause : Bool) (c : Config)
    → cancel ≡ true
    → IsHeld (boundary cancel pause s go_on c).phase
unfolding boundary
boundary-IsHeld s go_on true pause c e = tt
boundary-IsHeld s go_on false pause c e = cc

caught-IsHeld : (anchor : String) (e : Raised) (c : Config) → IsHeld (caught anchor e c).phase
unfolding caught park fail
caught-IsHeld anchor (hit a) c = tt
caught-IsHeld anchor (exception e) c = tt
caught-IsHeld anchor too_deep c = tt

finish_step-IsHeld :
    (s : Setup) (anchor : String) (next : Option String → Config → Config) (o : Outcome Stepped)
    (c : Config)
    → c.run.cancel_event ≡ true
    → IsHeld (finish_step s anchor next o c).phase
unfolding finish_step
finish_step-IsHeld s anchor next (raise e) c h = caught-IsHeld anchor e c
finish_step-IsHeld s anchor next (return (state, id)) c h =
    boundary-IsHeld s (next id) c.run.cancel_event c.run.pause_event
      (record c { state = state; step = c.step + 1 }) h

at_node-IsHeld :
    (s : Setup) (fuel : ℕ) (t : Tick) (id : String) (c : Config)
    → (run_node s fuel t.during id c.state c.step c.run).1.cancel_event ≡ true
    → IsHeld (step_phase s fuel t (at_node id) c).phase
unfolding step_phase
at_node-IsHeld s fuel t id c h = finish_step-IsHeld s id (after_node s) _ _ h

-- If the run is found cancelled after a node's tick, whenever the cancel came and whatever the tick
-- decided, the loop goes to no other node, enters no block and returns no summary.
pub cancel_stops_node :
    (s : Setup) (fuel : ℕ) (t : Tick) (c : Config) (id : String)
    → c.phase ≡ at_node id
    → (run_node s fuel t.during id c.state c.step c.run).1.cancel_event ≡ true
    → IsHeld (tick s fuel t c).phase
unfolding tick
cancel_stops_node s fuel t c id p h =
    subst (λ q. IsHeld (step_phase s fuel t q c).phase) (sym p) (at_node-IsHeld s fuel t id c h)

-- What the timer makes of a run that was cancelled while it waited.
abbrev IsLost : String → Config → Type 0
IsLost target c = (c.phase ≡ at_node target) × (c.run.state ≡ running) × (c.run.cancel_event ≡ true)

time_out_policy-IsLost :
    (s : Setup) (halt : Bool) (spec : Option String) (seconds : ℕ) (c : Config)
    (rest target : String)
    → halt ≡ false
    → spec ≡ some rest
    → or_none rest ≡ some target
    → c.run.cancel_event ≡ true
    → IsLost target (time_out_policy s halt spec seconds c)
unfolding time_out_policy time_out_goto enter
time_out_policy-IsLost s true spec seconds c rest target n g o h = absurd (ground arith)
time_out_policy-IsLost s false none seconds c rest target n g o h = absurd (ground arith)
time_out_policy-IsLost s false (some x) seconds c rest target n g o h =
    let e : or_none x ≡ some target = ground arith in rw e (refl, refl, h)

-- A run that waits and is cancelled is marked so, and is told no answer.
cancel_awaiting :
    (s : Setup) (r : Run) (actor : String)
    → r.state ≡ awaiting_input
    → r.respond_event ≡ false
    → let r' = (call s (call_cancel actor) r).1 in
      (r'.cancel_event ≡ true) × (r'.respond_event ≡ false)
unfolding call ◌>>=◌
cancel_awaiting s r actor h e = ground arith

answered-IsLost :
    (s : Setup) (a : InterruptAction) (anchor target rest : String) (told : Bool)
    (timeout : Option ℕ) (seconds : ℕ) (c : Config)
    → told ≡ false
    → timeout ≡ some seconds
    → (a.on_timeout == "halt") ≡ false
    → strip_prefix "goto:" a.on_timeout ≡ some rest
    → or_none rest ≡ some target
    → c.run.cancel_event ≡ true
    → IsLost target (answered s a anchor told timeout c)
unfolding answered time_out emit
answered-IsLost s a anchor target rest true timeout seconds c told t n g o h = absurd (ground arith)
answered-IsLost s a anchor target rest false none seconds c told t n g o h = absurd (ground arith)
answered-IsLost s a anchor target rest false (some x) seconds c told t n g o h =
    time_out_policy-IsLost s _ _ x _ rest target n g o h

await_one : (s : Setup) (c : Call) (r : Run) → await_respond s (c ∷ []) r ≡ (call s c r).1
unfolding await_respond
await_one s c r = ground arith

wait-IsLost :
    (s : Setup) (c : Config) (a : InterruptAction) (anchor actor target rest : String) (seconds : ℕ)
    → c.run.state ≡ awaiting_input
    → c.run.respond_event ≡ false
    → a.timeout ≡ some seconds
    → (a.on_timeout == "halt") ≡ false
    → strip_prefix "goto:" a.on_timeout ≡ some rest
    → or_none rest ≡ some target
    → IsLost target (wait s a anchor (call_cancel actor ∷ []) c)
unfolding wait
wait-IsLost s c a anchor actor target rest seconds st r t n g o =
    let (marked, untold) = cancel_awaiting s c.run actor st r in
    rw (await_one s (call_cancel actor) c.run)
      (answered-IsLost s a anchor target rest _ a.timeout seconds _ untold t n g o marked)

-- A run that waits for an answer with a timer and a goto policy is cancelled, and no answer comes.
-- When the timer fires the run is running again, although it is marked as cancelled, and the loop
-- goes to the target of the policy.
pub cancel_lost_at_timeout :
    (s : Setup) (fuel : ℕ) (c : Config) (a : InterruptAction) (anchor actor target rest : String)
    (seconds : ℕ)
    → c.phase ≡ parked a anchor
    → c.run.state ≡ awaiting_input
    → c.run.respond_event ≡ false
    → a.timeout ≡ some seconds
    → (a.on_timeout == "halt") ≡ false
    → strip_prefix "goto:" a.on_timeout ≡ some rest
    → or_none rest ≡ some target
    → let c' = tick s fuel (record { during = []; waiting = call_cancel actor ∷ [] }) c in
      (c'.phase ≡ at_node target) × (c'.run.state ≡ running) × (c'.run.cancel_event ≡ true)
unfolding tick step_phase
cancel_lost_at_timeout s fuel c a anchor actor target rest seconds p st r t n g o =
    let later : Tick = record { during = []; waiting = call_cancel actor ∷ [] } in
    subst (λ q. IsLost target (step_phase s fuel later q c)) (sym p)
      (wait-IsLost s c a anchor actor target rest seconds st r t n g o)
