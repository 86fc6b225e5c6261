-- ===== src/Graph/Loop/Preserved.antt =====
-- Every phase of the loop keeps the invariant of `Graph/Loop/Invariant.antt`.
use stargraph.Common.{
  ℕ, suc, ◌≡◌, refl, ◌⊎◌, inl, inr, String, Bool, true, false, Option, none, some, List, [], ◌∷◌,
  arith, or_none, runtime_error, Error, All,
}
use stargraph.Ir.Nodes.{NodeSpec, ParallelBlock}
use stargraph.Ir.Actions.{InterruptAction}
use stargraph.Graph.State.{
  State, Checkpoint, done, failed, run_cancelled, run_paused, bosun_audit, responded,
  interrupt_timeout, Setup, Run, new_run,
}
use stargraph.Graph.State.Exec.{exception, hit, too_deep, Outcome, return, raise, ◌>>=◌}
use stargraph.Graph.State.Exec.Keeps.{
  Keeps, Keeps-pure, Keeps-need, Keeps-modify, Keeps-bind, Keeps-lift,
}
use stargraph.Graph.Methods.{Call, call_cancel, call_pause, call_respond, call, emit}
use stargraph.Graph.Gates.Stable.{check_node_capability-Keeps, check_tool_capabilities-Keeps}
use stargraph.Runtime.Parallel.Stable.{execute_parallel-Keeps}
use stargraph.Runtime.Dispatch.Stable.{dispatch_node-Keeps}
use stargraph.Graph.Loop.{
  Phase, at_node, at_block, parked, halted, stopped, unwound, Config, enter, after_node, run_node,
  block_branches, run_parallel_block, answered, with_goto, with_halt, time_out_goto,
  time_out_policy, first_target, await_respond, time_out, Tick, wait, step_phase, tick, drive,
  begin, gated, start_config, begin_nodes, begin_with, execute,
}
use stargraph.Graph.Loop.Invariant.{
  results, results-snoc, Between, IsParked, Fresh, Fresh-IsStable, interfere-Between,
  Between-IsStable, PhaseInv, Inv,
}
use stargraph.Graph.Loop.Exits.{leave-Inv, enter-Inv, after_node-Inv, fail-Inv, finish_step-Inv}

module _ (s : Setup) (fuel : ℕ) where
  run_node-Between :
      (calls : List Call) (id : String) (state : State) (k : ℕ)
      → Keeps Between (run_node s fuel calls id state k)
  unfolding run_node
  run_node-Between calls id state k = Keeps-bind _ _ (Keeps-need _ _) λ node.
      Keeps-bind _ _ (check_node_capability-Keeps (Between-IsStable s) node)
        λ _. dispatch_node-Keeps (Between-IsStable s) fuel calls node state k

  block_branches-Between :
      (state : State) (k : ℕ) (ts : List String)
      → All (Keeps Between) (block_branches s fuel state k ts)
  unfolding block_branches
  block_branches-Between state k [] = tt
  block_branches-Between state k (t ∷ ts) = (
    Keeps-bind _ _ (run_node-Between [] t state k) λ a. Keeps-pure _,
    block_branches-Between state (suc k) ts,
  )

  run_parallel_block-Between :
      (calls : List Call) (b : ParallelBlock) (state : State) (k : ℕ)
      → Keeps Between (run_parallel_block s fuel calls b state k)
  unfolding run_parallel_block
  run_parallel_block-Between calls b state k =
      Keeps-bind _ _ (Keeps-modify _ (λ r h. interfere-Between s calls r h)) λ _.
        Keeps-bind _ _
          (execute_parallel-Keeps (Between-IsStable s) _ k _
            (block_branches-Between state k b.targets))
          λ rs. Keeps-bind _ _ (Keeps-lift _) λ m. Keeps-pure _

call-IsParked :
    (s : Setup) (c : Call) (r : Run)
    → IsParked r
    → IsParked (call s c r).1 ⊎ (((call s c r).1.respond_event ≡ true) × Between (call s c r).1)
unfolding call ◌>>=◌
call-IsParked s (call_cancel a) r h = ground (arith, results-snoc r.events (run_cancelled a))
call-IsParked s (call_pause a) r h = ground (arith, results-snoc r.events (run_paused a))
call-IsParked s (call_respond x a) r h =
    ground (arith, results-snoc r.events (bosun_audit (responded a (s.args_hash x))))

-- After the calls of a wait the run is parked still, or it was answered and is under way.
await_respond-Inv :
    (s : Setup) (cs : List Call) (r : Run)
    → IsParked r
    → IsParked (await_respond s cs r)
      ⊎ (((await_respond s cs r).respond_event ≡ true) × Between (await_respond s cs r))
unfolding await_respond
await_respond-Inv s [] r h = inl h
await_respond-Inv s (c ∷ cs) r h = elim (call-IsParked s c r h) [
  | inl parked_still ↦ rw parked_still.1 (await_respond-Inv s cs (call s c r).1 parked_still)
  | inr (told, on) ↦ rw told (inr (told, on))
]

time_out_goto-Inv :
    (s : Setup) (target : Option String) (c : Config)
    → results c.run.events ≡ 0
    → Inv (time_out_goto s target c)
unfolding time_out_goto
time_out_goto-Inv s none c h =
    fail-Inv (exception (runtime_error "on_timeout has empty goto target")) c h
time_out_goto-Inv s (some id) c h = enter-Inv s (some id) (with_goto c) (h, inl refl)

time_out_policy-Inv :
    (s : Setup) (b : Bool) (target : Option String) (seconds : ℕ) (c : Config)
    → results c.run.events ≡ 0
    → Inv (time_out_policy s b target seconds c)
unfolding time_out_policy
time_out_policy-Inv s true target seconds c h =
    leave-Inv s failed (with_halt seconds c) h refl (inr (inr (refl, refl)))
time_out_policy-Inv s false none seconds c h =
    fail-Inv (exception (runtime_error "on_timeout is not 'halt' or 'goto:<node_id>'")) c h
time_out_policy-Inv s false (some target) seconds c h = time_out_goto-Inv s (or_none target) c h

time_out-Inv :
    (s : Setup) (a : InterruptAction) (seconds : ℕ) (c : Config)
    → results c.run.events ≡ 0
    → Inv (time_out s a seconds c)
unfolding time_out emit
time_out-Inv s a seconds c h =
    let told = results-snoc c.run.events (interrupt_timeout c.step a.on_timeout) in
    time_out_policy-Inv s _ _ seconds
      (record c { run = emit (interrupt_timeout c.step a.on_timeout) c.run }) (omega arith)

answered-Inv :
    (s : Setup) (a : InterruptAction) (anchor : String) (responded : Bool) (timeout : Option ℕ)
    (c : Config)
    → c.run.respond_event ≡ responded
    → c.phase ≡ parked a anchor
    → IsParked c.run ⊎ ((c.run.respond_event ≡ true) × Between c.run)
    → Inv (answered s a anchor responded timeout c)
unfolding answered
answered-Inv s a anchor true timeout c e p (inl h) = absurd (ground arith)
answered-Inv s a anchor true timeout c e p (inr h) = enter-Inv s _ _ h.1
answered-Inv s a anchor false none c e p (inl h) = rw p h
answered-Inv s a anchor false (some seconds) c e p (inl h) = time_out-Inv s a seconds c h.0
answered-Inv s a anchor false timeout c e p (inr h) = absurd (ground arith)

wait-Inv :
    (s : Setup) (a : InterruptAction) (anchor : String) (cs : List Call) (c : Config)
    → c.phase ≡ parked a anchor
    → IsParked c.run
    → Inv (wait s a anchor cs c)
unfolding wait
wait-Inv s a anchor cs c e h =
    answered-Inv s a anchor _ a.timeout (record c { run = await_respond s cs c.run }) refl e
      (await_respond-Inv s cs c.run h)

step_phase-Inv :
    (s : Setup) (fuel : ℕ) (t : Tick) (p : Phase) (c : Config)
    → c.phase ≡ p
    → PhaseInv p c.run
    → Inv (step_phase s fuel t p c)
unfolding step_phase
step_phase-Inv s fuel t (at_node id) c e h =
    finish_step-Inv s id (after_node s) (after_node-Inv s) _ _
      ((run_node-Between s fuel t.during id c.state c.step).at c.run h)
step_phase-Inv s fuel t (at_block b) c e h =
    finish_step-Inv s (first_target b.targets) (enter s) (enter-Inv s) _ _
      ((run_parallel_block-Between s fuel t.during b c.state c.step).at c.run h)
step_phase-Inv s fuel t (parked a anchor) c e h = wait-Inv s a anchor t.waiting c e h
step_phase-Inv s fuel t (halted sum) c e h = rw e h
step_phase-Inv s fuel t (stopped x) c e h = rw e h
step_phase-Inv s fuel t unwound c e h = rw e h

-- One phase of the loop keeps the invariant of its phases.
pub tick-Inv : (s : Setup) (fuel : ℕ) (t : Tick) (c : Config) → Inv c → Inv (tick s fuel t c)
unfolding tick
tick-Inv s fuel t c h = step_phase-Inv s fuel t c.phase c refl h

pub drive-Inv :
    (s : Setup) (fuel : ℕ) (ts : List Tick) (c : Config) → Inv c → Inv (drive s fuel ts c)
unfolding drive
drive-Inv s fuel [] c h = h
drive-Inv s fuel (t ∷ ts) c h = drive-Inv s fuel ts (tick s fuel t c) (tick-Inv s fuel t c h)

gated-Inv :
    (first : NodeSpec) (o : Outcome (Unit {0})) (c : Config) → Fresh c.run → Inv (gated first o c)
unfolding gated
gated-Inv first (return x) c h = (h.0, inl refl)
gated-Inv first (raise (exception e)) c h = (h.0, inr h.1)
gated-Inv first (raise (hit a)) c h = h.0
gated-Inv first (raise too_deep) c h = h.0

begin_nodes-Inv : (s : Setup) (ns : List NodeSpec) (r : Run) → Fresh r → Inv (begin_nodes s ns r)
unfolding begin_nodes
begin_nodes-Inv s [] r h =
    leave-Inv s done (record (start_config s r) { run = record r { state = done } }) h.0 refl
      (inl refl)
begin_nodes-Inv s (n ∷ ns) r h =
    gated-Inv n _ _ ((check_tool_capabilities-Keeps (Fresh-IsStable s)).at r h)

begin_with-Inv :
    (s : Setup) (d : Option (Checkpoint → Option Error)) (r : Run)
    → Fresh r
    → Inv (begin_with s d r)
unfolding begin_with
begin_with-Inv s none r h = (h.0, inr h.1)
begin_with-Inv s (some d) r h = begin_nodes-Inv s s.graph.nodes r h

begin-Inv : (s : Setup) (r : Run) → Fresh r → Inv (begin s r)
unfolding begin
begin-Inv s r h = begin_with-Inv s s.checkpointer r h

pub execute-Inv : (s : Setup) (fuel : ℕ) (ts : List Tick) → Inv (execute s fuel ts)
unfolding execute new_run
execute-Inv s fuel ts = drive-Inv s fuel ts _ (begin-Inv s new_run (refl, refl))
