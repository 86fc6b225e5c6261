-- ===== src/Runtime/Parallel/Laws.antt =====
-- What a set of parallel branches comes to.
use stargraph.Common.{ℕ, suc, ◌≡◌, refl, String, List, [], ◌∷◌, length, string_keys}
use stargraph.Graph.State.{State, Setup, Run}
use stargraph.Graph.State.Exec.{
  Raised, exception, hit, too_deep, Outcome, return, raise, Exec, ◌>>=◌, pure, resume,
}
use stargraph.Runtime.Parallel.{Branch, group_failure, collect, run_branches, wrapped}

-- What a group of n branches comes to: n results or an exception, but no interrupt.
abbrev pub IsSettled : ℕ → Outcome (List State) → Type 0
IsSettled n (return vs) = length vs ≡ n
IsSettled n (raise (exception e)) = Unit
IsSettled n (raise (hit a)) = ⊥
IsSettled n (raise too_deep) = Unit

group_failure-IsSettled : (n : ℕ) (e : Raised) → IsSettled n (raise (group_failure e))
unfolding group_failure
group_failure-IsSettled n (exception e) = tt
group_failure-IsSettled n (hit a) = tt
group_failure-IsSettled n too_deep = tt

with_first-IsSettled :
    (n : ℕ) (v : State) (o : Outcome (List State)) (r : Run)
    → IsSettled n o
    → IsSettled (suc n) (resume o (λ vs. pure (v ∷ vs)) r).0
unfolding pure
with_first-IsSettled n v (return vs) r h = rw h refl
with_first-IsSettled n v (raise (exception e)) r h = h
with_first-IsSettled n v (raise (hit a)) r h = h
with_first-IsSettled n v (raise too_deep) r h = h

collect-IsSettled :
    (n : ℕ) (o : Outcome State) (rest : Exec Run (List State)) (r : Run)
    → IsSettled n (rest r).0
    → IsSettled (suc n) (collect o rest r).0
unfolding collect ◌>>=◌
collect-IsSettled n (raise e) rest r h = group_failure-IsSettled (suc n) e
collect-IsSettled n (return v) rest r h = with_first-IsSettled n v (rest r).0 (rest r).1 h

-- A group of branches, whatever they do, comes to one result for each branch or to an exception, and
-- never to an interrupt: one that a branch hits comes out as an exception group.
pub run_branches-IsSettled :
    (s : Setup) (k : ℕ) (strategy : String) (i : ℕ) (fs : List Branch) (r : Run)
    → IsSettled (length fs) (run_branches s k strategy i fs r).0
unfolding run_branches ◌>>=◌
run_branches-IsSettled s k strategy i [] r = refl
run_branches-IsSettled s k strategy i (f ∷ fs) r =
    let (o, r') = wrapped s k strategy i f r in
    collect-IsSettled (length fs) o (run_branches s k strategy (suc i) fs) r'
      (run_branches-IsSettled s k strategy (suc i) fs r')
