-- ===== src/Replay/Compare.antt =====
-- `compare` of src/stargraph/replay/compare.py: where a counterfactual run leaves the original.
pub mod Laws
use stargraph.Common.{
  ℕ, String, Bool, true, false, not, Option, none, some, List, [], ◌∷◌, ◌&&◌, ◌||◌, Record,
  if◌then◌else◌, ◌==◌, string_keys, get_last?, ◌++◌, suc,
}
use stargraph.Graph.State.{Checkpoint}
use stargraph.Ir.Actions.{Action}

pub data DivergedAt : Type 0 where
  state_differs : DivergedAt
  node_output : DivergedAt
  edge_taken : DivergedAt
  side_effect : DivergedAt

pub record StepDiff : Type 0 where
  pub step : ℕ
  pub branch_id : Option String
  pub diverged_at : DivergedAt
  pub state_diff : List Record
  pub output_diff : Option (String × String)
  pub side_effect_diff : Option (String × String)

pub record RunDiff : Type 0 where
  pub original_run_id : String
  pub counterfactual_run_id : String
  pub derived_hash : String
  pub steps : List StepDiff
  pub final_state_diff : List Record
  pub final_status_diff : Option (String × String)

pub record History : Type 0 where
  pub run_id : String
  pub checkpoints : List Checkpoint

-- `jsonpatch.make_patch(src, dst).patch`, and `==` of two actions.
pub record Differ : Type 0 where
  pub patch_ops : Record → Record → List Record
  pub same_next : Option Action → Option Action → Bool

-- What a row gives for the comparison, and what stands in place of a row that is missing.
pub record Side : Type 0 where
  pub state : Record
  pub node : String
  pub next_action : Option Action
  pub side_effects : String

abbrev pub side : Option Checkpoint → Side
side none = record { state = []; node = ""; next_action = none; side_effects = "" }
side (some c) = record {
  state = c.state;
  node = c.last_node;
  next_action = c.next_action;
  side_effects = c.side_effects_hash;
}

abbrev pub some_op : List Record → Bool
some_op [] = false
some_op (op ∷ ops) = true

abbrev first_difference : Bool → Bool → Bool → DivergedAt
first_difference state node edge =
    if state
    then state_differs
    else (if node then node_output else (if edge then edge_taken else side_effect))

abbrev pair_if : Bool → String → String → Option (String × String)
pair_if true a b = some (a, b)
pair_if false a b = none

-- The step and the branch of a divergence.
abbrev position : Option Checkpoint → Option Checkpoint → ℕ → ℕ × Option String
position (some o) (some c) i = (o.step, c.branch_id)
position (some o) none i = (o.step, o.branch_id)
position none (some c) i = (c.step, c.branch_id)
position none none i = (i, none)

-- The body of the loop.
unfoldable pub step_diff : Differ → ℕ → Option Checkpoint → Option Checkpoint → List StepDiff
step_diff d i o c =
    let a = side o in
    let b = side c in
    let ops = d.patch_ops a.state b.state in
    let node_differs = not (a.node == b.node) in
    let edge_differs = not (d.same_next a.next_action b.next_action) in
    let se_differs = not (a.side_effects == b.side_effects) in
    if some_op ops || node_differs || edge_differs || se_differs
    then record {
      step = (position o c i).0;
      branch_id = (position o c i).1;
      diverged_at = first_difference (some_op ops) node_differs edge_differs;
      state_diff = ops;
      output_diff = pair_if node_differs a.node b.node;
      side_effect_diff = pair_if se_differs a.side_effects b.side_effects;
    }
      ∷ []
    else []

abbrev pub step_diffs_cf :
    (ℕ → Option Checkpoint → Option Checkpoint → List StepDiff)
    → ℕ
    → List Checkpoint
    → List StepDiff
step_diffs_cf f i [] = []
step_diffs_cf f i (c ∷ cs) = f i none (some c) ++ step_diffs_cf f (suc i) cs

-- The loop, over the longer of the two lists.
abbrev pub step_diffs :
    (ℕ → Option Checkpoint → Option Checkpoint → List StepDiff)
    → ℕ
    → List Checkpoint
    → List Checkpoint
    → List StepDiff
step_diffs f i [] cs = step_diffs_cf f i cs
step_diffs f i (o ∷ os) [] = f i (some o) none ++ step_diffs f (suc i) os []
step_diffs f i (o ∷ os) (c ∷ cs) = f i (some o) (some c) ++ step_diffs f (suc i) os cs

abbrev first_hash : List Checkpoint → String
first_hash [] = ""
first_hash (c ∷ cs) = c.graph_hash

-- `compare`
unfoldable pub compare : Differ → History → History → RunDiff
unfolding step_diff
compare d orig cf =
    let a = side (get_last? orig.checkpoints) in
    let b = side (get_last? cf.checkpoints) in
    record {
      original_run_id = orig.run_id;
      counterfactual_run_id = cf.run_id;
      derived_hash = first_hash cf.checkpoints;
      steps = step_diffs (step_diff d) 0 orig.checkpoints cf.checkpoints;
      final_state_diff = d.patch_ops a.state b.state;
      final_status_diff = pair_if (not (a.node == b.node)) a.node b.node;
    }
