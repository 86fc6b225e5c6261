-- ===== src/Tests/Replay.antt =====
-- The comparison of runs, the loading of a run, and the hash of a counterfactual one.
use native.Mathlib.Decide.{ℕ_discrete}
use stargraph.Common.{
  ℕ, ◌≡◌, refl, String, Bool, true, false, Option, none, some, List, [], ◌∷◌, ◌⊎◌, Value,
  if◌then◌else◌, int, ok, Record, string_keys, nat_keys,
}
use stargraph.Common.Dict.{Dict, lookup}
use stargraph.Graph.State.{Checkpoint}
use stargraph.Ir.Actions.{Action, goto}
use stargraph.Common.Sorting.{String_discrete, le_text}
use stargraph.Replay.Compare.{Differ, History}
use stargraph.Replay.History.{load}
use stargraph.Replay.Counterfactual.{
  CounterfactualMutation, derived_graph_hash, apply_respond_override,
}
use stargraph.Replay.Counterfactual.Laws.{Collision, derived_graph_hash_inj}

record_discrete : Discrete Record
record_discrete = hlevel (ℕ_discrete, String_discrete)

action_discrete : Discrete (Option Action)
action_discrete = hlevel (ℕ_discrete, String_discrete)

-- A patch that replaces the whole document.
abbrev patch_of : {src dst : Record} → Dec (src ≡ dst) → List Record
patch_of (yes p) = []
patch_of {src} {dst} (no q) = dst ∷ []

abbrev truth : {x y : Option Action} → Dec (x ≡ y) → Bool
truth (yes p) = true
truth (no q) = false

-- The members of a state, sorted by their keys.
abbrev put_member : String × Value → Record → Record
put_member m [] = m ∷ []
put_member m (n ∷ rest) =
    let later = put_member m rest in if le_text m.0 n.0 then m ∷ n ∷ rest else n ∷ later

abbrev by_key : Record → Record
by_key [] = []
by_key (m ∷ rest) = put_member m (by_key rest)

abbrev differ : Differ
differ = record {
  patch_ops = λ src dst. patch_of (record_discrete (by_key src) (by_key dst));
  same_next = λ x y. truth (action_discrete x y);
}

abbrev row : ℕ → String → Option Action → Checkpoint
row n node next = record {
  run_id = "r1";
  step = n;
  branch_id = none;
  parent_step_idx = none;
  graph_hash = "h";
  runtime_hash = "rt";
  state = ("count", int n) ∷ [];
  clips_facts = [];
  last_node = node;
  next_action = next;
  parent_run_id = none;
  side_effects_hash = "s";
}

abbrev original : History
original = record {
  run_id = "r1";
  checkpoints = row 0 "ask" none ∷ row 1 "work" (some (goto "ask")) ∷ [];
}

abbrev fork : History
fork = record { run_id = "cf"; checkpoints = row 0 "ask" none ∷ row 1 "work" none ∷ [] }

-- Rows 0 and 1 are loaded; row 3 stands behind a gap.
abbrev stored : Dict ℕ Checkpoint
stored = (1, row 1 "work" none) ∷ (0, row 0 "ask" none) ∷ (3, row 3 "tell" none) ∷ []

loaded : load stored ≡ some (row 0 "ask" none ∷ row 1 "work" none ∷ [])
unfolding load
loaded = refl

abbrev mutation : CounterfactualMutation
mutation = record {
  state_overrides = none;
  facts_assert = none;
  facts_retract = none;
  rule_pack_version = none;
  node_output_overrides = none;
  respond_payloads = some ((2, ("answer", int 1) ∷ []) ∷ []);
}

abbrev parent : String
parent = "ab12"

-- The canonical form `{}`, and a hash of two digits.
abbrev dumps : CounterfactualMutation → List ℕ
dumps m = 123 ∷ 125 ∷ []

abbrev two_digits : List ℕ → String
two_digits bytes = "0f"

derived : derived_graph_hash two_digits dumps parent mutation ≡ ok "0f"
unfolding derived_graph_hash
derived = refl

derived_graph_hash_inj_example :
    ((parent ≡ parent) × (dumps mutation ≡ dumps mutation)) ⊎ Collision two_digits
derived_graph_hash_inj_example =
    derived_graph_hash_inj two_digits dumps parent parent mutation mutation "0f" refl refl derived
      derived

overridden : apply_respond_override mutation 2 "ann" ≡ some (("answer", int 1) ∷ [], "cf:ann")
unfolding apply_respond_override lookup
overridden = refl

not_overridden : apply_respond_override mutation 3 "ann" ≡ none
unfolding apply_respond_override lookup
not_overridden = refl
