-- ===== src/Graph/Resume.antt =====
-- `GraphRun.resume` and `GraphRun.counterfactual` of src/stargraph/graph/run.py: the run that goes on
-- from a checkpoint, and the fork of one with changed values.
pub mod Laws
use stargraph.Common.{
  ℕ, String, Bool, true, false, Option, none, some, List, [], ◌∷◌, Record, Result, ok, err, ◌>>=◌,
  checkpoint_error, ◌==◌, string_keys, if◌then◌else◌, ◌&&◌, any, is_some, strip_prefix,
}
use stargraph.Common.Dict.{update}
use stargraph.Ir.Nodes.{MigrateBlock}
use stargraph.Graph.State.{State, model, Checkpoint, Graph}

-- The reads of a checkpoint driver.
pub record Reads : Type 0 where
  pub read_latest : String → Option Checkpoint
  pub read_at_step : String → ℕ → Option Checkpoint

abbrev or_missing : String → Option Checkpoint → Result Checkpoint
or_missing reason none = err (checkpoint_error reason)
or_missing reason (some ckpt) = ok ckpt

-- `_load_checkpoint`
unfoldable pub load_checkpoint : Reads → String → Option ℕ → Result Checkpoint
load_checkpoint driver run_id none = or_missing "no-checkpoint" (driver.read_latest run_id)
load_checkpoint driver run_id (some step) =
    or_missing "missing-step" (driver.read_at_step run_id step)

-- The prefix that a storage layer is to write in front of the hash of a fork.
abbrev pub has_cf_prefix : Checkpoint → Bool
has_cf_prefix ckpt = is_some (strip_prefix "stargraph-cf-v1" ckpt.graph_hash)

-- `_refuse_cf_prefix`
unfoldable pub refuse_cf_prefix : Checkpoint → Result (Unit {0})
refuse_cf_prefix ckpt =
    if has_cf_prefix ckpt then err (checkpoint_error "cf-prefix-hash-refused") else ok tt

-- `_migrate_block_applies`
unfoldable pub migrate_block_applies : Graph → Checkpoint → Bool
migrate_block_applies graph ckpt =
    any (λ (b : MigrateBlock). b.from_hash == ckpt.graph_hash && b.to_hash == graph.graph_hash)
      graph.migrate

-- `_validate_graph_hash`
unfoldable pub validate_graph_hash : Checkpoint → Option Graph → Result (Unit {0})
unfolding migrate_block_applies
validate_graph_hash ckpt none = ok tt
validate_graph_hash ckpt (some graph) =
    if graph.graph_hash == ckpt.graph_hash
    then ok tt
    else if migrate_block_applies graph ckpt
    then ok tt
    else err (checkpoint_error "graph-hash-mismatch")

-- `_state_model_from_dict`: Pydantic's `create_model` and the call of the class may raise.
unfoldable pub state_model_from_dict : (Record → Result {0} Unit) → Record → Result State
state_model_from_dict build state = do _ ← build state; ok (model state)

-- What the two constructors hand to `GraphRun`: `stub` is the graph of `_build_resume_stub_graph`.
pub record Handle : Type 0 where
  pub run_id : String
  pub graph : Graph
  pub initial_state : State
  pub parent_run_id : Option String

abbrev or_stub : Graph → Option Graph → Graph
or_stub stub none = stub
or_stub stub (some graph) = graph

-- `GraphRun.resume`
unfoldable pub resume :
    (Record → Result {0} Unit) → Graph → Reads → String → Option ℕ → Option Graph → Result Handle
unfolding load_checkpoint refuse_cf_prefix validate_graph_hash state_model_from_dict
resume build stub driver run_id from_step graph = do
  ckpt ← load_checkpoint driver run_id from_step
  _ ← refuse_cf_prefix ckpt
  _ ← validate_graph_hash ckpt graph
  initial_state ← state_model_from_dict build ckpt.state
  ok (record {
    run_id = run_id;
    graph = or_stub stub graph;
    initial_state = initial_state;
    parent_run_id = ckpt.parent_run_id;
  })

abbrev overridden : Record → Option Record → Record
overridden state none = state
overridden state (some overrides) = update state overrides

-- `GraphRun.counterfactual`, for a mutation with these `state_overrides` and a fresh run id.
unfoldable pub counterfactual :
    (Record → Result {0} Unit) → Graph → Reads → String → String → ℕ → Option Record → Result Handle
unfolding load_checkpoint update state_model_from_dict
counterfactual build stub driver run_id cf_run_id step overrides = do
  ckpt ← load_checkpoint driver run_id (some step)
  initial_state ← state_model_from_dict build (overridden ckpt.state overrides)
  ok (record {
    run_id = cf_run_id;
    graph = stub;
    initial_state = initial_state;
    parent_run_id = some run_id;
  })
