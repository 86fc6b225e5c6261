-- ===== src/Runtime/Parallel/Stable.antt =====
-- What every branch keeps, `execute_parallel` keeps.
use stargraph.Common.{
  ℕ, suc, String, List, [], ◌∷◌, All, refl, false, ◌≡◌, ◌++◌, none, some, ◌==◌, string_keys, ◌||◌,
  is_some, strip_prefix,
}
use stargraph.Graph.State.{State, Event, EngineOp, Setup, Run}
use stargraph.Graph.State.Exec.{exception, hit, too_deep, Outcome, return, raise, Exec}
use stargraph.Graph.State.Exec.Keeps.{Keeps, Keeps-pure, Keeps-bind, Keeps-if, Keeps-throw}
use stargraph.Graph.Methods.Stable.{IsStable, lifecycle, is_result}
use stargraph.Graph.Methods.{emit, ask}
use stargraph.Runtime.Parallel.{
  Branch, told, branch_exit, wrapped, collect, run_branches, race, execute_parallel,
}

module _ {s : Setup} {P : Run → Type 0} (st : IsStable s P) where
  -- The engine's history is no part of the lifecycle.
  lifecycle-ask : (ops : List EngineOp) (r : Run) → lifecycle (ask s ops r) ≡ lifecycle r
  unfolding ask
  lifecycle-ask ops r =
      elim s.engine
        as (λ e.
          lifecycle (elim e [ none ↦ r | some _ ↦ record r { engine_ops = r.engine_ops ++ ops } ])
          ≡ lifecycle r) [ none ↦ refl | some e ↦ refl ]

  told-P :
      (kind : String) (step : ℕ) (strategy : String) (i : ℕ) (ev : Event) (r : Run)
      → is_result ev ≡ false
      → P r
      → P (told s kind step strategy i ev r)
  unfolding told
  told-P kind step strategy i ev r h p =
      st.quiet _ _ (lifecycle-ask _ (emit ev r)) (st.sends ev r h p)

  branch_exit-Keeps :
      (step : ℕ) (strategy : String) (i : ℕ) (o : Outcome State)
      → Keeps P (branch_exit s step strategy i o)
  unfolding branch_exit
  branch_exit-Keeps step strategy i (return v) = record { at = λ r h. told-P _ _ _ _ _ r refl h }
  branch_exit-Keeps step strategy i (raise too_deep) = record { at = λ r h. h }
  branch_exit-Keeps step strategy i (raise (exception e)) = record {
    at = λ r h. told-P _ _ _ _ _ r refl h;
  }
  branch_exit-Keeps step strategy i (raise (hit a)) = record {
    at = λ r h. told-P _ _ _ _ _ r refl h;
  }

  wrapped-Keeps :
      (step : ℕ) (strategy : String) (i : ℕ) (f : Branch)
      → Keeps P f
      → Keeps P (wrapped s step strategy i f)
  unfolding wrapped
  wrapped-Keeps step strategy i f kf = record {
    at = λ r h. (branch_exit-Keeps step strategy i _).at _ (kf.at _ (told-P _ _ _ _ _ r refl h));
  }

  collect-Keeps :
      (o : Outcome State) (rest : Exec Run (List State)) → Keeps P rest → Keeps P (collect o rest)
  unfolding collect
  collect-Keeps (raise e) rest k = record { at = λ r h. h }
  collect-Keeps (return v) rest k = record {
    at = (Keeps-bind rest _ k (λ vs. Keeps-pure (v ∷ vs))).at;
  }

  run_branches-Keeps :
      (step : ℕ) (strategy : String) (i : ℕ) (fs : List Branch)
      → All (Keeps P) fs
      → Keeps P (run_branches s step strategy i fs)
  unfolding run_branches
  run_branches-Keeps step strategy i [] k = Keeps-pure []
  run_branches-Keeps step strategy i (f ∷ fs) k = record {
    at = λ r h.
        (collect-Keeps _ _ (run_branches-Keeps step strategy (suc i) fs k.1)).at _
          ((wrapped-Keeps step strategy i f k.0).at r h);
  }

  race-Keeps :
      (step : ℕ) (strategy : String) (fs : List Branch)
      → All (Keeps P) fs
      → Keeps P (race s step strategy fs)
  unfolding race
  race-Keeps step strategy [] k = Keeps-throw _
  race-Keeps step strategy (f ∷ fs) k =
      Keeps-bind (wrapped s step strategy 0 f) _ (wrapped-Keeps step strategy 0 f k.0)
        (λ v. Keeps-pure (v ∷ []))

  pub execute_parallel-Keeps :
      (strategy : String) (step : ℕ) (fs : List Branch)
      → All (Keeps P) fs
      → Keeps P (execute_parallel s strategy step fs)
  unfolding execute_parallel
  execute_parallel-Keeps strategy step fs k =
      Keeps-if (strategy == "all") _ _ (run_branches-Keeps step strategy 0 fs k) (
        Keeps-if (strategy == "any" || strategy == "race") _ _ (race-Keeps step strategy fs k) (
          Keeps-if (is_some (strip_prefix "quorum:" strategy)) _ _ (Keeps-throw _) (Keeps-throw _)))
