-- ===== src/Graph/Loop/Exits.antt =====
-- The ways out of a step keep the invariant of `Graph/Loop/Invariant.antt`.
use stargraph.Common.{
  ◌+◌, ◌≡◌, refl, ◌⊎◌, inl, inr, String, Bool, true, false, Option, none, some, arith,
}
use stargraph.Ir.Nodes.{ParallelBlock}
use stargraph.Graph.State.{RunState, paused, done, failed, result, waiting_for_input, Setup}
use stargraph.Graph.State.Exec.{Raised, exception, hit, too_deep, Outcome, return, raise}
use stargraph.Graph.State.Exec.Keeps.{}
use stargraph.Graph.Methods.{emit, rearm}
use stargraph.Graph.Helpers.{parallel_block_for}
use stargraph.Graph.Loop.{
  Config, summary, leave, enter, fail, park, caught, boundary, after_node, Stepped, finish_step,
  at_head,
}
use stargraph.Graph.Loop.Invariant.{results, results-snoc, Between, Inv}

-- A result is told by the loop's own exits alone.
pub leave-Inv :
    (s : Setup) (status : RunState) (c : Config)
    → results c.run.events ≡ 0
    → c.run.state ≡ status
    → ((status ≡ done)
        ⊎ (((status ≡ paused) × (c.run.pause_event ≡ true))
            ⊎ ((status ≡ failed) × (c.run.error_class ≡ some "interrupt_timeout"))))
    → Inv (leave s status c)
unfolding leave summary emit
leave-Inv s status c h e k = ground (arith, results-snoc c.run.events (result status c.state))

pub enter-Inv :
    (s : Setup) (next : Option String) (c : Config) → Between c.run → Inv (enter s next c)
unfolding enter
enter-Inv s none c h =
    leave-Inv s done (record c { run = record c.run { state = done } }) h.0 refl (inl refl)
enter-Inv s (some id) c h = h

pub at_head-Inv :
    (s : Setup) (next : Option String) (b : Option ParallelBlock) (c : Config)
    → Between c.run
    → Inv (at_head s next b c)
unfolding at_head
at_head-Inv s next none c h = enter-Inv s next c h
at_head-Inv s next (some b) c h = h

pub after_node-Inv :
    (s : Setup) (next : Option String) (c : Config) → Between c.run → Inv (after_node s next c)
unfolding after_node
after_node-Inv s next c h = at_head-Inv s next (parallel_block_for s.graph.parallel next) c h

pub fail-Inv : (e : Raised) (c : Config) → results c.run.events ≡ 0 → Inv (fail e c)
unfolding fail
fail-Inv (exception e) c h = (h, inl (refl, refl))
fail-Inv (hit a) c h = h
fail-Inv too_deep c h = h

pub caught-Inv :
    (anchor : String) (e : Raised) (c : Config) → Between c.run → Inv (caught anchor e c)
unfolding caught park rearm emit
caught-Inv anchor (hit a) c h = ground (
  arith,
  results-snoc c.run.events
      (waiting_for_input c.step a.prompt a.interrupt_payload a.requested_capability),
)
caught-Inv anchor (exception e) c h = fail-Inv (exception e) c h.0
caught-Inv anchor too_deep c h = fail-Inv too_deep c h.0

pub boundary-Inv :
    (s : Setup) (go_on : Config → Config) (cancel pause : Bool) (c : Config)
    → c.run.cancel_event ≡ cancel
    → c.run.pause_event ≡ pause
    → Inv (go_on c)
    → Between c.run
    → Inv (boundary cancel pause s go_on c)
unfolding boundary
boundary-Inv s go_on true pause c e f k h = (h.0, e)
boundary-Inv s go_on false true c e f k h =
    leave-Inv s paused (record c { run = record c.run { state = paused } }) h.0 refl
      (inr (inl (refl, f)))
boundary-Inv s go_on false false c e f k h = k

pub finish_step-Inv :
    (s : Setup) (anchor : String) (next : Option String → Config → Config)
    → ((id : Option String) (c : Config) → Between c.run → Inv (next id c))
    → (o : Outcome Stepped) (c : Config) → Between c.run
    → Inv (finish_step s anchor next o c)
unfolding finish_step
finish_step-Inv s anchor next keep (raise e) c h = caught-Inv anchor e c h
finish_step-Inv s anchor next keep (return (state, id)) c h =
    let c' : Config = record c { state = state; step = c.step + 1 } in
    boundary-Inv s (next id) c.run.cancel_event c.run.pause_event c' refl refl (keep id c' h) h
