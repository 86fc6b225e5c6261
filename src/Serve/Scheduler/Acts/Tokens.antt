-- ===== src/Serve/Scheduler/Acts/Tokens.antt =====
-- The steps of a worker keep the count of its limiter.
use text.Mathlib.TextEquality.{eq_iff}
use stargraph.Common.{
  ℕ, suc, ◌+◌, ◌-◌, ◌≡◌, refl, ◌∙◌, ap, String, Bool, true, false, Option, none, some, ◌&&◌, ◌==◌,
  arith, get_elem?, set, class_name, string_keys, if◌then◌else◌, Option-cases, Bool-cases, inl, inr,
  drop_at, node_error,
}
use mathlib.Core.Path.{subst}
use stargraph.Common.Dict.{lookup, lookup-insert}
use stargraph.Graph.State.{RunState, error}
use stargraph.Serve.Scheduler.{
  Phase, at_limiter, driving, clearing, recording, Worker, Limiter, Scheduler, resolved, rejected,
  with_limiter,
}
use stargraph.Serve.Scheduler.Acts.{}
use stargraph.Serve.Scheduler.Steps.{
  Turn, Ending, summary, exception, release, enter_limiter, acquire, settle_run, clear,
  record_terminal, leave_worker, work, run_one, settled, coerced, leave_cancelled, cancel_worker,
}
use stargraph.Serve.Scheduler.Acts.Holders.{
  weight, holders, holds_token, LimitInv, holders-set, holders-drop_at,
}

pub with_limiter-LimitInv : (g : String) (s : Scheduler) → LimitInv s → LimitInv (with_limiter g s)
unfolding with_limiter
with_limiter-LimitInv g s h g' =
    ground
      (arith, h g', eq_iff g g', lookup-insert g g' (record { total = 1; borrowed = 0 }) s.limiters)

-- What a worker counts for the limiter of a graph.
weight-phase :
    (g : String) (w : Worker) (p : Phase)
    → w.phase ≡ p
    → weight g w ≡ (if w.item.pending.graph_id == g && holds_token p then 1 else 0)
weight-phase g w p e = ap (λ q. if w.item.pending.graph_id == g && holds_token q then 1 else 0) e

enter_limiter-LimitInv :
    (k : ℕ) (w : Worker) (l : Option Limiter) (s : Scheduler)
    → get_elem? s.workers k ≡ some w
    → w.phase ≡ at_limiter
    → lookup w.item.pending.graph_id s.limiters ≡ l
    → LimitInv s
    → LimitInv (enter_limiter k w l s)
unfolding enter_limiter
enter_limiter-LimitInv k w none s e p f h g = h g
enter_limiter-LimitInv k w (some l) s e p f h g =
    let g0 = w.item.pending.graph_id in
    ground (
      arith,
      f,
      h g,
      eq_iff g0 g,
      weight-phase g w at_limiter p,
      lookup-insert g0 g (record l { borrowed = suc l.borrowed }) s.limiters,
      holders-set g s.workers k w (record w { phase = driving }) e,
    )

-- A worker that goes on with the token that it has, or without one.
stays-LimitInv :
    (k : ℕ) (w : Worker) (p : Phase) (s s' : Scheduler)
    → get_elem? s.workers k ≡ some w
    → holds_token w.phase ≡ holds_token p
    → s'.limiters ≡ s.limiters
    → s'.workers ≡ set s.workers k (record w { phase = p })
    → LimitInv s
    → LimitInv s'
stays-LimitInv k w p s s' e t l m h g =
    rw (l, m) (ground (arith, h g, t, holders-set g s.workers k w (record w { phase = p }) e))

-- A worker that gives its token back.
release-LimitInv :
    (g0 : String) (s s' : Scheduler)
    → s'.limiters ≡ s.limiters
    → ((g : String) → holders g s'.workers + (if g0 == g then 1 else 0) ≡ holders g s.workers)
    → LimitInv s
    → LimitInv (release g0 s')
unfolding release
release-LimitInv g0 s s' l m h g = elim (Option-cases (lookup g0 s'.limiters)) [
  | inl gone ↦ ground (arith, gone, l, h g, h g0, m g, m g0, eq_iff g0 g, eq_iff g0 g0)
  | inr (lim, found) ↦ ground (
    arith,
    found,
    l,
    h g,
    h g0,
    m g,
    m g0,
    eq_iff g0 g,
    eq_iff g0 g0,
    lookup-insert g0 g (record lim { borrowed = lim.borrowed - 1 }) s'.limiters,
  )
]

with_limiter-workers : (g : String) (s : Scheduler) → (with_limiter g s).workers ≡ s.workers
unfolding with_limiter
with_limiter-workers g s = ground arith

settle_run-LimitInv :
    (k : ℕ) (w : Worker) (end : Ending) (s : Scheduler)
    → get_elem? s.workers k ≡ some w
    → w.phase ≡ driving
    → LimitInv s
    → LimitInv (settle_run k w end s)
unfolding settle_run
settle_run-LimitInv k w (exception x) s e p h =
    stays-LimitInv k w (clearing true error (some (class_name x))) s
      (settle_run k w (exception x) s) e (ap holds_token p) refl refl h
settle_run-LimitInv k w (summary status c) s e p h =
    let q = clearing false (coerced status) c in
    let s' : Scheduler = record s {
      futures = settled w.item.future (resolved status) s.futures;
      workers = set s.workers k (record w { phase = q });
    } in
    release-LimitInv w.item.pending.graph_id s s' refl
      (λ g.
        ground (
          arith,
          weight-phase g w driving p,
          holders-set g s.workers k w (record w { phase = q }) e,
        ))
      h

leave_worker-LimitInv :
    (k : ℕ) (w : Worker) (held : Bool) (status : RunState) (c : Option String) (refused : Bool)
    (s : Scheduler)
    → get_elem? s.workers k ≡ some w
    → w.phase ≡ recording held status c
    → LimitInv s
    → LimitInv (leave_worker k w held status c refused s)
unfolding leave_worker
leave_worker-LimitInv k w true status c refused s e p h =
    release-LimitInv w.item.pending.graph_id s (record_terminal k w status c refused s)
      (unfold record_terminal in refl)
      (unfold record_terminal in
        λ g.
          ground (
            arith,
            weight-phase g w (recording true status c) p,
            holders-drop_at g s.workers k w e,
          ))
      h
leave_worker-LimitInv k w false status c refused s e p h =
    unfold record_terminal in
    λ g.
      ground (
        arith,
        h g,
        weight-phase g w (recording false status c) p,
        holders-drop_at g s.workers k w e,
      )

pub work-LimitInv :
    (k : ℕ) (w : Worker) (p : Phase) (t : Turn) (s : Scheduler)
    → get_elem? s.workers k ≡ some w
    → w.phase ≡ p
    → LimitInv s
    → LimitInv (work k w p t s)
unfolding work acquire clear
work-LimitInv k w at_limiter t s e p h =
    let g = w.item.pending.graph_id in
    enter_limiter-LimitInv k w _ (with_limiter g s)
      (ap (λ ws. get_elem? ws k) (with_limiter-workers g s) ∙ e) p refl
      (with_limiter-LimitInv g s h)
work-LimitInv k w driving t s e p h = settle_run-LimitInv k w (run_one t.registered t.end) s e p h
work-LimitInv k w (clearing held status c) t s e p h =
    stays-LimitInv k w (recording held status c) s (clear k w held status c t.refused s) e
      (ap holds_token p) refl refl h
work-LimitInv k w (recording held status c) t s e p h =
    leave_worker-LimitInv k w held status c t.refused s e p h

leave_cancelled-LimitInv :
    (k : ℕ) (w : Worker) (s : Scheduler)
    → get_elem? s.workers k ≡ some w
    → LimitInv s
    → LimitInv (leave_cancelled k w (holds_token w.phase) s)
unfolding leave_cancelled
leave_cancelled-LimitInv k w s e h = elim (Bool-cases (holds_token w.phase)) [
  | inl holding ↦ rw holding (
      release-LimitInv w.item.pending.graph_id s (record s { workers = drop_at s.workers k }) refl
        (λ g. ground (arith, holding, holders-drop_at g s.workers k w e)) h)
  | inr free ↦ rw free (λ g. ground (arith, h g, free, holders-drop_at g s.workers k w e))
]

pub cancel_worker-LimitInv :
    (k : ℕ) (w : Worker) (p : Phase) (s : Scheduler)
    → get_elem? s.workers k ≡ some w
    → w.phase ≡ p
    → LimitInv s
    → LimitInv (cancel_worker k w p s)
unfolding cancel_worker
cancel_worker-LimitInv k w at_limiter s e p h =
    subst (λ b. LimitInv (leave_cancelled k w b s)) (ap holds_token p)
      (leave_cancelled-LimitInv k w s e h)
cancel_worker-LimitInv k w driving s e p h =
    let s' : Scheduler = record s {
      futures = settled w.item.future (rejected (node_error "CancelledError" "")) s.futures;
    } in
    subst (λ b. LimitInv (leave_cancelled k w b s')) (ap holds_token p)
      (leave_cancelled-LimitInv k w s' e h)
cancel_worker-LimitInv k w (clearing held status c) s e p h =
    subst (λ b. LimitInv (leave_cancelled k w b s)) (ap holds_token p)
      (leave_cancelled-LimitInv k w s e h)
cancel_worker-LimitInv k w (recording held status c) s e p h =
    subst (λ b. LimitInv (leave_cancelled k w b s)) (ap holds_token p)
      (leave_cancelled-LimitInv k w s e h)
