-- ===== src/Runtime/Dispatch/Stable.antt =====
-- What a tick at a node cannot break, whatever the node, the rules and the other tasks do.
use stargraph.Common.{
  Result, ℕ, zero, suc, String, Option, none, some, List, [], ◌∷◌, All, Record, refl, Error,
}
use stargraph.Ir.Actions.{Action, ActionObject, parallel, interrupt}
use stargraph.Ir.Nodes.{NodeSpec}
use stargraph.Runtime.Mirror.{Fact}
use stargraph.Runtime.Action.{RoutingDecision, continue, routed}
use stargraph.Runtime.Parallel.Stable.{execute_parallel-Keeps}
use stargraph.Graph.State.{
  State, model, dict, no_state, Checkpoint, Engine, NodeResult, outputs, raises, hit_interrupt,
  Setup, Run,
}
use stargraph.Graph.State.Exec.{◌>>=◌}
use stargraph.Graph.State.Exec.Keeps.{
  Keeps, Keeps-pure, Keeps-stop, Keeps-throw, Keeps-lift, Keeps-need, Keeps-modify, Keeps-attempt,
  Keeps-bind,
}
use stargraph.Graph.Methods.{Call}
use stargraph.Graph.Methods.Stable.{IsStable, write_row-Keeps}
use stargraph.Runtime.Dispatch.{
  Firing, Again, body_outcome, run_body, model_copy, retract_consumed, consult_engine, consult,
  attest, store_facts, settle_mirrors, commit, tick_body, branches, dispatch_parallel, route,
  dispatch_node,
}

module _ {s : Setup} {P : Run → Type 0} (st : IsStable s P) where
  body_outcome-Keeps : (o : NodeResult) → Keeps P (body_outcome o)
  unfolding body_outcome ◌>>=◌
  body_outcome-Keeps (outputs out) = record { at = λ r h. st.quiet r _ refl h }
  body_outcome-Keeps (raises e) = record { at = λ r h. st.quiet r _ refl h }
  body_outcome-Keeps (hit_interrupt a) = record { at = λ r h. st.quiet r _ refl h }

  run_body-Keeps :
      (calls : List Call) (node : NodeSpec) (state : State) (k : ℕ)
      → Keeps P (run_body s calls node state k)
  unfolding run_body
  run_body-Keeps calls node state k = Keeps-bind _ _ (Keeps-need _ _) λ impl.
      Keeps-bind _ _ (Keeps-modify _ (λ r h. st.quiet r _ refl h)) λ _.
        Keeps-bind _ _ (Keeps-modify _ (λ r h. st.calls calls r h))
          λ _. body_outcome-Keeps (impl state k)

  model_copy-Keeps : (state : State) (out : Record) → Keeps P (model_copy state out)
  unfolding model_copy
  model_copy-Keeps (model fields) out = Keeps-pure _
  model_copy-Keeps (dict fields) out = Keeps-throw _
  model_copy-Keeps no_state out = Keeps-throw _

  retract_consumed-P : (os : List ActionObject) (r : Run) → P r → P (retract_consumed os r)
  unfolding retract_consumed
  retract_consumed-P [] r h = h
  retract_consumed-P (o ∷ os) r h = st.quiet r _ refl h

  consult_engine-Keeps : (e : Engine) (state : State) (k : ℕ) → Keeps P (consult_engine e state k)
  unfolding consult_engine
  consult_engine-Keeps e state k = record {
    at = λ r h.
        (Keeps-bind _ _ (Keeps-lift _) λ actions.
            Keeps-bind _ _ (Keeps-modify _ (retract_consumed-P actions)) λ _. Keeps-pure _).at
          _ (st.quiet r _ refl h);
  }

  consult-Keeps : (e : Option Engine) (state : State) (k : ℕ) → Keeps P (consult e state k)
  unfolding consult
  consult-Keeps none state k = Keeps-pure _
  consult-Keeps (some e) state k = consult_engine-Keeps e state k

  attest-Keeps :
      (sink : Option (State → Checkpoint → Option Error)) (entry : State) (row : Checkpoint)
      → Keeps P (attest sink entry row)
  unfolding attest
  attest-Keeps none entry row = Keeps-pure _
  attest-Keeps (some sink) entry row =
      Keeps-bind _ _ (Keeps-attempt _) λ _. Keeps-modify _ (λ r h. st.quiet r _ refl h)

  store_facts-Keeps : (x : List Fact × Result (Unit {0})) → Keeps P (store_facts x)
  unfolding store_facts
  store_facts-Keeps (facts, result) =
      Keeps-bind _ _ (Keeps-modify _ (λ r h. st.quiet r _ refl h)) λ _. Keeps-lift _

  settle_mirrors-Keeps : (k : ℕ) → Keeps P (settle_mirrors s k)
  unfolding settle_mirrors
  settle_mirrors-Keeps k = record {
    at = λ r h. (store_facts-Keeps _).at (record r { mirror_scheduler = _ }) (st.quiet r _ refl h);
  }

  commit-Keeps :
      (node : NodeSpec) (entry state : State) (out : Record) (f : Firing) (k : ℕ)
      → Keeps P (commit s node entry state out f k)
  unfolding commit
  commit-Keeps node entry state out f k =
      Keeps-bind _ _ (Keeps-modify _ (λ r h. st.sends _ r refl h)) λ _.
        Keeps-bind _ _ (Keeps-need _ _) λ driver. Keeps-bind _ _ (write_row-Keeps st driver _) λ _.
          Keeps-bind _ _ (attest-Keeps s.receipt_sink entry _)
            λ _. Keeps-bind _ _ (settle_mirrors-Keeps k) λ _. Keeps-pure _

  pub tick_body-Keeps :
      (calls : List Call) (node : NodeSpec) (entry : State) (k : ℕ)
      → Keeps P (tick_body s calls node entry k)
  unfolding tick_body
  tick_body-Keeps calls node entry k = Keeps-bind _ _ (run_body-Keeps calls node entry k) λ out.
      Keeps-bind _ _ (model_copy-Keeps entry out) λ state.
        Keeps-bind _ _ (consult-Keeps s.engine state k)
          λ f. Keeps-bind _ _ (commit-Keeps node entry state out f k) λ d. Keeps-pure _

  module _ (again : Again)
      (keep : (n : NodeSpec) (st' : State) (k : ℕ) → Keeps P (again n st' k)) where
    branches-Keeps :
        (state : State) (k : ℕ) (ts : List String) → All (Keeps P) (branches s again state k ts)
    unfolding branches
    branches-Keeps state k [] = tt
    branches-Keeps state k (t ∷ ts) = (
      Keeps-bind _ _ (Keeps-need _ _) λ node. Keeps-bind _ _ (keep node state k) λ a. Keeps-pure _,
      branches-Keeps state (suc k) ts,
    )

    dispatch_parallel-Keeps :
        (ts : List String) (join strategy : String) (state : State) (k : ℕ)
        → Keeps P (dispatch_parallel s again ts join strategy state k)
    unfolding dispatch_parallel
    dispatch_parallel-Keeps ts join strategy state k =
        Keeps-bind _ _ (execute_parallel-Keeps st _ k _ (branches-Keeps state (suc k) ts))
          λ rs. Keeps-pure _

    route_action-Keeps :
        (id : String) (state : State) (k : ℕ) (i : ℕ) (a : Action)
        → Keeps P (route s again id state k (routed (record { ident = i; action = a })))
    unfolding route
    route_action-Keeps id state k i (interrupt a) = Keeps-stop _
    route_action-Keeps id state k i (parallel ts join strategy) =
        dispatch_parallel-Keeps ts join strategy state k
    route_action-Keeps id state k i _ = Keeps-pure _

    route-Keeps :
        (id : String) (state : State) (k : ℕ) (d : RoutingDecision)
        → Keeps P (route s again id state k d)
    unfolding route
    route-Keeps id state k continue = Keeps-pure _
    route-Keeps id state k (routed o) = route_action-Keeps id state k o.ident o.action

  pub dispatch_node-Keeps :
      (fuel : ℕ) (calls : List Call) (node : NodeSpec) (state : State) (k : ℕ)
      → Keeps P (dispatch_node s fuel calls node state k)
  unfolding dispatch_node
  dispatch_node-Keeps zero calls node state k = record { at = λ r h. h }
  dispatch_node-Keeps (suc fuel) calls node state k = record {
    at =
        (Keeps-bind _ _ (tick_body-Keeps calls node state k) λ after.
          route-Keeps _ (λ n st' j. dispatch_node-Keeps fuel [] n st' j) node.id after.0 k
            after.1).at;
  }
