-- ===== src/Serve/Scheduler/Acts/Settled.antt =====
-- The steps of a worker lose no future.
use stargraph.Common.{
  any-set, ℕ, ◌≡◌, refl, ap, String, Bool, true, false, Option, none, some, arith, get_elem?, set,
  string_keys,
}
use stargraph.Common.Dict.{lookup}
use stargraph.Graph.State.{RunState}
use stargraph.Serve.Scheduler.{
  Phase, at_limiter, driving, clearing, recording, Worker, Limiter, Scheduler, resolved, rejected,
  with_limiter,
}
use stargraph.Serve.Scheduler.Acts.{}
use stargraph.Serve.Scheduler.Steps.{
  Turn, Ending, summary, exception, release, enter_limiter, acquire, settle_run, clear,
  record_terminal, leave_worker, work, run_one, settled, coerced,
}
use stargraph.Serve.Scheduler.Acts.Held.{
  before_end, works_on, NoLost, settled-Kept, moves-Kept, leaves-Kept,
}

pub with_limiter-NoLost : (g : String) (s : Scheduler) → NoLost s → NoLost (with_limiter g s)
unfolding with_limiter
with_limiter-NoLost g s h i = ground (arith, h i)

enter_limiter-NoLost :
    (k : ℕ) (w : Worker) (l : Option Limiter) (s : Scheduler)
    → get_elem? s.workers k ≡ some w
    → w.phase ≡ at_limiter
    → NoLost s
    → NoLost (enter_limiter k w l s)
unfolding enter_limiter
enter_limiter-NoLost k w none s e p h i = h i
enter_limiter-NoLost k w (some l) s e p h i = ground (
  arith,
  h i,
  ap before_end p,
  any-set (works_on i) s.workers k w (record w { phase = driving }) e,
)

release-NoLost : (g : String) (s : Scheduler) → NoLost s → NoLost (release g s)
unfolding release
release-NoLost g s h i = ground (arith, h i)

settle_run-NoLost :
    (k : ℕ) (w : Worker) (end : Ending) (s : Scheduler)
    → get_elem? s.workers k ≡ some w
    → NoLost s
    → NoLost (settle_run k w end s)
unfolding settle_run
settle_run-NoLost k w (summary status c) s e h =
    let p = clearing false (coerced status) c in
    let s' : Scheduler = record s {
      futures = settled w.item.future (resolved status) s.futures;
      workers = set s.workers k (record w { phase = p });
    } in
    release-NoLost w.item.pending.graph_id s'
      (settled-Kept k w p (resolved status) s.queue s.futures s.workers e refl h)
settle_run-NoLost k w (exception x) s e h =
    settled-Kept k w _ (rejected x) s.queue s.futures s.workers e refl h

leave_worker-NoLost :
    (k : ℕ) (w : Worker) (held_still : Bool) (status : RunState) (c : Option String)
    (refused : Bool) (s : Scheduler)
    → get_elem? s.workers k ≡ some w
    → before_end w.phase ≡ false
    → NoLost s
    → NoLost (leave_worker k w held_still status c refused s)
unfolding leave_worker record_terminal
leave_worker-NoLost k w true status c refused s e b h =
    release-NoLost w.item.pending.graph_id (record_terminal k w status c refused s)
      (leaves-Kept k w s.queue s.futures s.workers e b h)
leave_worker-NoLost k w false status c refused s e b h =
    leaves-Kept k w s.queue s.futures s.workers e b h

pub work-NoLost :
    (k : ℕ) (w : Worker) (p : Phase) (t : Turn) (s : Scheduler)
    → get_elem? s.workers k ≡ some w
    → w.phase ≡ p
    → NoLost s
    → NoLost (work k w p t s)
unfolding work acquire clear
work-NoLost k w at_limiter t s e p h =
    let g = w.item.pending.graph_id in
    enter_limiter-NoLost k w (lookup g (with_limiter g s).limiters) (with_limiter g s)
      (unfold with_limiter in ground (arith, e)) p (with_limiter-NoLost g s h)
work-NoLost k w driving t s e p h = settle_run-NoLost k w (run_one t.registered t.end) s e h
work-NoLost k w (clearing held_still status c) t s e p h =
    moves-Kept k w _ s.queue s.futures s.workers e (ap before_end p) h
work-NoLost k w (recording held_still status c) t s e p h =
    leave_worker-NoLost k w held_still status c t.refused s e (ap before_end p) h
