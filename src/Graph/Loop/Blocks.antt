-- ===== src/Graph/Loop/Blocks.antt =====
-- A parallel block never parks a run: an interrupt that one of its branches hits makes the run fail.
use stargraph.Common.{
  ℕ, ◌≡◌, String, Option, none, some, List, length, string_keys, Bool, true, false, err, Result, ok,
}
use mathlib.Core.Path.{subst, sym}
use stargraph.Ir.Nodes.{ParallelBlock}
use stargraph.Graph.State.{State, Setup, Run}
use stargraph.Graph.State.Exec.{
  exception, hit, too_deep, Outcome, return, raise, ◌>>=◌, resume, lift, pure, Exec,
}
use stargraph.Graph.Methods.{interfere, Call}
use stargraph.Graph.Helpers.Merge.{merge_branch_results}
use stargraph.Runtime.Parallel.{execute_parallel}
use stargraph.Runtime.Parallel.Laws.{IsSettled, run_branches-IsSettled}
use stargraph.Graph.Loop.{
  Phase, at_block, parked, Config, boundary, advance, caught, fail, enter, leave, finish_step,
  Stepped, first_target, run_parallel_block, block_branches, Tick, step_phase, tick,
}

abbrev pub IsUnparked : Phase → Type 0
IsUnparked (parked a anchor) = ⊥
IsUnparked _ = Unit

abbrev IsNoHit : Outcome Stepped → Type 0
IsNoHit (return v) = Unit
IsNoHit (raise (exception e)) = Unit
IsNoHit (raise (hit a)) = ⊥
IsNoHit (raise too_deep) = Unit

lifted-IsNoHit :
    (m : Result State) (join : Option String) (r : Run)
    → IsNoHit (resume (lift m r).0 (λ merged. pure (merged, join)) (lift m r).1).0
unfolding lift pure
lifted-IsNoHit (ok st) join r = tt
lifted-IsNoHit (err e) join r = tt

merged-IsNoHit :
    (n : ℕ) (o : Outcome (List State)) (join : Option String) (r : Run)
    → IsSettled n o
    → IsNoHit
        (resume o
          (λ results. lift (merge_branch_results results none) >>= (λ m. pure (m, join)))
          r).0
unfolding ◌>>=◌
merged-IsNoHit n (return vs) join r h = lifted-IsNoHit (merge_branch_results vs none) join r
merged-IsNoHit n (raise (exception e)) join r h = tt
merged-IsNoHit n (raise (hit a)) join r h = h
merged-IsNoHit n (raise too_deep) join r h = tt

execute_parallel-all :
    (s : Setup) (k : ℕ) (strategy : String) (fs : List (Exec Run State)) (r : Run)
    → strategy ≡ "all"
    → IsSettled (length fs) (execute_parallel s strategy k fs r).0
unfolding execute_parallel
execute_parallel-all s k strategy fs r e = rw e (run_branches-IsSettled s k "all" 0 fs r)

run_parallel_block-IsNoHit :
    (s : Setup) (fuel : ℕ) (calls : List Call) (b : ParallelBlock) (state : State) (k : ℕ) (r : Run)
    → b.strategy ≡ "all"
    → IsNoHit (run_parallel_block s fuel calls b state k r).0
unfolding run_parallel_block ◌>>=◌
run_parallel_block-IsNoHit s fuel calls b state k r e =
    let fs = block_branches s fuel state k b.targets in
    merged-IsNoHit (length fs) _ _ _
      (execute_parallel-all s k b.strategy fs (interfere s calls r) e)

enter-IsUnparked :
    (s : Setup) (next : Option String) (c : Config) → IsUnparked (enter s next c).phase
unfolding enter leave
enter-IsUnparked s none c = tt
enter-IsUnparked s (some id) c = tt

boundary-IsUnparked :
    (s : Setup) (next : Option String) (cancel pause : Bool) (c : Config)
    → IsUnparked (boundary cancel pause s (enter s next) c).phase
unfolding boundary leave
boundary-IsUnparked s next true pause c = tt
boundary-IsUnparked s next false true c = tt
boundary-IsUnparked s next false false c = enter-IsUnparked s next c

finish_step-IsUnparked :
    (s : Setup) (anchor : String) (o : Outcome Stepped) (c : Config)
    → IsNoHit o
    → IsUnparked (finish_step s anchor (enter s) o c).phase
unfolding finish_step advance caught fail
finish_step-IsUnparked s anchor (return (state, next)) c h = boundary-IsUnparked s next _ _ _
finish_step-IsUnparked s anchor (raise (exception e)) c h = tt
finish_step-IsUnparked s anchor (raise (hit a)) c h = h
finish_step-IsUnparked s anchor (raise too_deep) c h = tt

at_block-IsUnparked :
    (s : Setup) (fuel : ℕ) (t : Tick) (b : ParallelBlock) (c : Config)
    → b.strategy ≡ "all"
    → IsUnparked (step_phase s fuel t (at_block b) c).phase
unfolding step_phase
at_block-IsUnparked s fuel t b c e =
    finish_step-IsUnparked s (first_target b.targets) _ _
      (run_parallel_block-IsNoHit s fuel t.during b c.state c.step c.run e)

-- Behind a block whose strategy is to wait for all its branches the loop does not wait for an
-- answer, whatever its branches do and also where one of them asks for it.
pub all_block_never_parks :
    (s : Setup) (fuel : ℕ) (t : Tick) (b : ParallelBlock) (c : Config)
    → c.phase ≡ at_block b
    → b.strategy ≡ "all"
    → IsUnparked (tick s fuel t c).phase
unfolding tick
all_block_never_parks s fuel t b c p e =
    subst (λ q. IsUnparked (step_phase s fuel t q c).phase) (sym p)
      (at_block-IsUnparked s fuel t b c e)
