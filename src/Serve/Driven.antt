-- ===== src/Serve/Driven.antt =====
-- The scheduler and the execution loop together: what the history of runs says of a run that the loop has driven to
-- its end.
use stargraph.Common.{
  ℕ, ◌≡◌, refl, sym, ap, ◌∙◌, ◌⊎◌, inl, inr, String, true, false, Option, some, List, [], ◌∷◌,
  arith, ◌&&◌, string_keys, get_elem?, set, get_elem?-set, nat_eq_iff, if◌then◌else◌,
}
use text.Mathlib.TextEquality.{eq_iff}
use mathlib.Core.Path.{subst}
use stargraph.Common.Dict.{Dict, lookup, lookup-insert}
use stargraph.Graph.State.{RunState, RunSummary, Setup, done, paused, failed}
use stargraph.Graph.Loop.{Tick, halted, execute}
use stargraph.Graph.Loop.Invariant.{PhaseInv}
use stargraph.Graph.Loop.Preserved.{execute-Inv}
use stargraph.Serve.Scheduler.{
  Env, Scheduler, Worker, resolved, HistoryRow, driving, clearing, recording,
}
use stargraph.Serve.Scheduler.Steps.{
  Turn, returned, coerced, work, settle_run, run_one, clear, record_terminal, leave_worker, release,
  update_status, coalesce, settled,
}
use stargraph.Serve.Scheduler.Acts.{works, work_at, act, run}

-- The turns of a worker whose run returns, with stores that take what they are told.
abbrev pub returns : RunSummary → Turn
returns sum = record {
  registered = true;
  end = returned sum.status sum.error_class;
  refused = false;
}

-- A run that the loop ends is done, paused or failed: the scheduler has nothing to correct.
coerced-ended : (st : RunState) → (st ≡ done) ⊎ ((st ≡ paused) ⊎ (st ≡ failed)) → coerced st ≡ st
unfolding coerced
coerced-ended st (inl e) = ap coerced e ∙ sym e
coerced-ended st (inr (inl e)) = ap coerced e ∙ sym e
coerced-ended st (inr (inr e)) = ap coerced e ∙ sym e

-- The three ways, without what else is known of them.
endings {ℓ κ} :
    {A : Type ℓ} {B : Type κ} {st : RunState}
    → (st ≡ done) ⊎ (((st ≡ paused) × A) ⊎ ((st ≡ failed) × B))
    → (st ≡ done) ⊎ ((st ≡ paused) ⊎ (st ≡ failed))
endings (inl e) = inl e
endings (inr (inl (e, a))) = inr (inl e)
endings (inr (inr (e, b))) = inr (inr e)

-- A worker's next step, where its phase is known.
act-works :
    (env : Env) (k : ℕ) (w : Worker) (t : Turn) (s : Scheduler)
    → get_elem? s.workers k ≡ some w
    → act env (works k t) s ≡ work k w w.phase t s
unfolding act work_at
act-works env k w t s e = ap (λ o. work_at k o t s) e

set-there :
    (ws : List Worker) (k : ℕ) (w v : Worker)
    → get_elem? ws k ≡ some w
    → get_elem? (set ws k v) k ≡ some v
set-there ws k w v e = get_elem?-set ws k k w v e ∙ ground (arith, nat_eq_iff k k)

release-workers : (g : String) (s : Scheduler) → (release g s).workers ≡ s.workers
unfolding release
release-workers g s = ground arith

release-history : (g : String) (s : Scheduler) → (release g s).history ≡ s.history
unfolding release
release-history g s = ground arith

release-has_history : (g : String) (s : Scheduler) → (release g s).has_history ≡ s.has_history
unfolding release
release-has_history g s = ground arith

update_status-lookup :
    (run_id : String) (status : RunState) (c : Option String) (row : HistoryRow)
    (h : Dict String HistoryRow)
    → lookup run_id h ≡ some row
    → lookup run_id (update_status run_id status c h)
      ≡ some (record row { status = status; error_class = coalesce c row.error_class })
unfolding update_status
update_status-lookup run_id status c row h e =
    let new : HistoryRow = record row {
      status = status;
      error_class = coalesce c row.error_class;
    } in
    ground (arith, e, lookup-insert run_id run_id new h, eq_iff run_id run_id)

-- The worker k stands at w, and the history is wired and says h.
abbrev StandsAt : ℕ → Worker → Dict String HistoryRow → Scheduler → Type 0
StandsAt k w h s = (get_elem? s.workers k ≡ some w) × (s.has_history ≡ true) × (s.history ≡ h)

settles :
    (env : Env) (k : ℕ) (w : Worker) (sum : RunSummary) (h : Dict String HistoryRow) (s : Scheduler)
    → w.phase ≡ driving
    → StandsAt k w h s
    → StandsAt k
        (record w { phase = clearing false (coerced sum.status) sum.error_class })
        h
        (act env (works k (returns sum)) s)
unfolding work settle_run run_one
settles env k w sum h s p (e, has, same) =
    let w' : Worker = record w { phase = clearing false (coerced sum.status) sum.error_class } in
    let s' : Scheduler = record s {
      futures = settled w.item.future (resolved sum.status) s.futures;
      workers = set s.workers k w';
    } in
    let g = w.item.pending.graph_id in
    let after : act env (works k (returns sum)) s ≡ release g s' =
      act-works env k w (returns sum) s e ∙ ap (λ q. work k w q (returns sum) s) p in
    subst (StandsAt k w' h) (sym after) (
      ap (λ ws. get_elem? ws k) (release-workers g s') ∙ set-there s.workers k w w' e,
      release-has_history g s' ∙ has,
      release-history g s' ∙ same,
    )

clears :
    (env : Env) (k : ℕ) (w : Worker) (sum : RunSummary) (st : RunState) (c : Option String)
    (h : Dict String HistoryRow) (s : Scheduler)
    → w.phase ≡ clearing false st c
    → StandsAt k w h s
    → StandsAt k (record w { phase = recording false st c }) h (act env (works k (returns sum)) s)
unfolding work clear
clears env k w sum st c h s p (e, has, same) =
    let w' : Worker = record w { phase = recording false st c } in
    let after : act env (works k (returns sum)) s ≡ clear k w false st c false s =
      act-works env k w (returns sum) s e ∙ ap (λ q. work k w q (returns sum) s) p in
    subst (StandsAt k w' h) (sym after) (set-there s.workers k w w' e, has, same)

records :
    (env : Env) (k : ℕ) (w : Worker) (sum : RunSummary) (st : RunState) (c : Option String)
    (h : Dict String HistoryRow) (s : Scheduler)
    → w.phase ≡ recording false st c
    → StandsAt k w h s
    → (act env (works k (returns sum)) s).history ≡ update_status w.item.pending.run_id st c h
unfolding work leave_worker record_terminal
records env k w sum st c h s p (e, has, same) =
    let after : act env (works k (returns sum)) s ≡ record_terminal k w st c false s =
      act-works env k w (returns sum) s e ∙ ap (λ q. work k w q (returns sum) s) p in
    ap (λ t. t.history) after
    ∙ (ap (λ b. if b && true then update_status w.item.pending.run_id st c s.history else s.history)
          has
        ∙ ap (update_status w.item.pending.run_id st c) same)

-- The last three steps of a worker whose run has returned.
three_steps :
    (env : Env) (k : ℕ) (w : Worker) (sum : RunSummary) (h : Dict String HistoryRow) (s : Scheduler)
    → w.phase ≡ driving
    → StandsAt k w h s
    → let t = returns sum in
      (run env (works k t ∷ works k t ∷ works k t ∷ []) s).history
      ≡ update_status w.item.pending.run_id (coerced sum.status) sum.error_class h
unfolding run
three_steps env k w sum h s p at =
    let st = coerced sum.status in
    let c = sum.error_class in
    let w1 : Worker = record w { phase = clearing false st c } in
    let w2 : Worker = record w { phase = recording false st c } in
    let s1 = act env (works k (returns sum)) s in
    let s2 = act env (works k (returns sum)) s1 in
    let at1 : StandsAt k w1 h s1 = settles env k w sum h s p at in
    let at2 : StandsAt k w2 h s2 = clears env k w1 sum st c h s1 refl at1 in
    records env k w2 sum st c h s2 refl at2

-- A run that the loop drives to a summary, under any calls that other tasks make on it until then, and whose worker then
-- takes its last three steps one after the other, with no other act of the scheduler in between: where the history has a
-- row of the run and its store accepts the write, that row ends with the state of the run itself, and with its error
-- class if it has one.
pub history_tells_state :
    (setup : Setup) (fuel : ℕ) (ts : List Tick) (sum : RunSummary) (env : Env) (k : ℕ) (w : Worker)
    (row : HistoryRow) (s : Scheduler)
    → (execute setup fuel ts).phase ≡ halted sum
    → get_elem? s.workers k ≡ some w
    → w.phase ≡ driving
    → s.has_history ≡ true
    → lookup w.item.pending.run_id s.history ≡ some row
    → let r = (execute setup fuel ts).run in
      let t = returns sum in
      lookup w.item.pending.run_id (run env (works k t ∷ works k t ∷ works k t ∷ []) s).history
      ≡ some (record row { status = r.state; error_class = coalesce r.error_class row.error_class })
history_tells_state setup fuel ts sum env k w row s ended e p has found =
    let r = (execute setup fuel ts).run in
    let (told, status, class, how) = subst (λ q. PhaseInv q r) ended (execute-Inv setup fuel ts) in
    let true_status : coerced sum.status ≡ r.state =
      ap coerced status ∙ coerced-ended r.state (endings how) in
    ap (lookup w.item.pending.run_id) (three_steps env k w sum s.history s p (e, has, refl))
    ∙ (update_status-lookup w.item.pending.run_id (coerced sum.status) sum.error_class row s.history
          found
        ∙ (ap
              (λ q.
                some (record row {
                  status = q;
                  error_class = coalesce sum.error_class row.error_class;
                }))
              true_status
            ∙ ap
                (λ q.
                  some (record row { status = r.state; error_class = coalesce q row.error_class }))
                class))
