-- ===== src/Graph/Hash.antt =====
-- The structural hash of a document (src/stargraph/graph/hash.py): its components, in their canonical
-- order. The encoder of rfc8785 with SHA-256 is a parameter, and so are the JSON schemas that Pydantic
-- gives of a class.
mod Payload
unfoldable pub use Payload.{has_float, normalize_at, coerce}
pub use Payload.{Place, elsewhere, in_topology, place_of}
pub mod Laws
pub mod Signatures
use Prim.Native.String.{String, ◌++◌ as text_append}
use stargraph.Common.{
  ℕ, ◌+◌, Bool, true, false, ◌||◌, Option, none, some, List, [], ◌∷◌, ◌++◌, map, any, Value, null,
  bool, int, neg_int, str, atom, obj, arr, Members, no_member, member, Elements, no_element,
  element, Result, ok, err, ◌>>=◌, value_error, ir_validation_error, string_keys, ◌==◌,
  if◌then◌else◌, ltb,
}
use stargraph.Common.Decimal.{decimal}
use stargraph.Common.Dict.{Dict, insert}
use stargraph.Common.Sorting.{sorted, TotalOrder, text_order, pair_order, le_text}
use stargraph.Ir.Actions.{Action, goto, halt, parallel, retry, assert, retract, interrupt}

-- A node by its id and the schema of its class, `type(node).model_json_schema()`.
pub record HashedNode : Type 0 where
  pub id : String
  pub class_schema : Value

pub record HashedRule : Type 0 where
  pub id : String
  pub actions : List Action

-- `PackRequires`: stargraph_facts_version and api_version
pub record PackMount : Type 0 where
  pub id : String
  pub requires : Option (Option String × Option String)

-- `state_schema`: a model class, by its serialization schema, or something else.
pub data StateSchema : Type 0 where
  model_class : Value → StateSchema
  other_schema : String → StateSchema

-- The fields of an `IRDocument` that the hash reads.
pub record HashedIr : Type 0 where
  pub nodes : List HashedNode
  pub rules : List HashedRule
  pub state_schema : StateSchema
  pub governance : List PackMount

-- (src, dst, port), or a pack's (pack_id, sha256, version)
abbrev pub Edge : Type 0
Edge = String × (String × String)

pub record Topology : Type 0 where
  pub nodes : List String
  pub edges : List Edge

abbrev pub hashed_ids : List HashedNode → List String
hashed_ids ns = map (λ n. n.id) ns

edges_to : String → List String → List Edge
edges_to src [] = []
edges_to src (target ∷ targets) = (src, (target, "parallel")) ∷ edges_to src targets

-- The edges that an action makes.
action_edges : String → Action → List Edge
unfolding edges_to
action_edges src (goto target) = (src, (target, "goto")) ∷ []
action_edges src (parallel targets join strategy) = edges_to src targets
action_edges src (retry target backoff) = (src, (target, "retry")) ∷ []
action_edges src (halt reason) = []
action_edges src (assert fact slots) = []
action_edges src (retract pattern) = []
action_edges src (interrupt i) = []

actions_edges : String → List Action → List Edge
unfolding action_edges
actions_edges src [] = []
actions_edges src (a ∷ rest) = action_edges src a ++ actions_edges src rest

-- The two outer loops of `_topology_from_ir`.
unfoldable pub edges_of : List HashedRule → List Edge
unfolding actions_edges
edges_of [] = []
edges_of (r ∷ rs) = actions_edges r.id r.actions ++ edges_of rs

-- `_topology_from_ir`
unfoldable pub topology_from_ir : HashedIr → Topology
unfolding sorted edges_of
topology_from_ir ir = record {
  nodes = sorted (hashed_ids ir.nodes);
  edges = sorted (edges_of ir.rules);
}

-- `_node_signatures`, into a dict
unfoldable pub node_signatures : List HashedNode → Dict String Value → Dict String Value
unfolding insert
node_signatures [] d = d
node_signatures (n ∷ ns) d = node_signatures ns (insert n.id n.class_schema d)

abbrev pub Requirement : Type 0
Requirement = String × (Option String × Option String)

-- `sort(key=lambda t: t[0])`, which keeps the order of equal keys
insert_by_id : Requirement → List Requirement → List Requirement
unfolding le_text
insert_by_id t [] = t ∷ []
insert_by_id t (u ∷ us) =
    let rest = insert_by_id t us in if le_text t.0 u.0 then t ∷ u ∷ us else u ∷ rest

requirements : List PackMount → List Requirement
unfolding insert_by_id
requirements [] = []
requirements (pm ∷ pms) = elim pm.requires [
  | none ↦ requirements pms
  | some versions ↦ insert_by_id (pm.id, versions) (requirements pms)
]

-- `_pack_requires_component`
unfoldable pub pack_requires_component : List PackMount → Option (List Requirement)
unfolding requirements
pack_requires_component governance = elim (requirements governance) [
  | [] ↦ none
  | t ∷ ts ↦ some (t ∷ ts)
]

-- `_normalize` of the topology sorts it once more.
unfoldable pub normalize_topology : Topology → Topology
unfolding sorted
normalize_topology t = record { nodes = sorted t.nodes; edges = sorted t.edges }

module _ (lossless : String → Option Value) where
  -- `_state_schema_signature`
  unfoldable pub state_schema_signature : StateSchema → Result Value
  unfolding coerce
  state_schema_signature (model_class schema) = ok (coerce lossless schema)
  state_schema_signature (other_schema name) =
      err (ir_validation_error "state_schema must be a BaseModel subclass")

-- The canonical dict.
pub record Canonical : Type 0 where
  pub topology : Topology
  pub signatures : Dict String Value
  pub state_schema : Value
  pub rule_pack_versions : List Edge
  pub pack_requires : Option (List Requirement)

-- `_reject_floats` of the canonical dict: the other components hold texts only.
unfoldable pub any_float : Canonical → Bool
unfolding has_float
any_float c = any (λ e. has_float e.1) c.signatures || has_float c.state_schema

module _ (py_str : Value → String) where
  abbrev pub normalize_signatures : Dict String Value → Dict String Value
  unfolding normalize_at
  normalize_signatures [] = []
  normalize_signatures ((k, v) ∷ d) =
      (k, normalize_at py_str (place_of k) v) ∷ normalize_signatures d

  unfoldable pub normalize_canonical : Canonical → Canonical
  unfolding normalize_topology normalize_signatures
  normalize_canonical c = record c {
    topology = normalize_topology c.topology;
    signatures = normalize_signatures c.signatures;
    state_schema = normalize_at py_str elsewhere c.state_schema;
  }

module _ (py_str : Value → String) (jcs_sha256 : Canonical → String) where
  -- `_structural_hash_dict`
  unfoldable pub structural_hash_dict : Canonical → Result String
  unfolding any_float normalize_canonical
  structural_hash_dict c =
      if any_float c
      then err (value_error "float fields forbidden in hashed payload (FR-4)")
      else ok (jcs_sha256 (normalize_canonical py_str c))

  -- `structural_hash`
  unfoldable pub structural_hash : (String → Option Value) → HashedIr → List Edge → Result String
  unfolding topology_from_ir node_signatures state_schema_signature sorted pack_requires_component
      structural_hash_dict
  structural_hash lossless ir versions =
      state_schema_signature lossless ir.state_schema >>= λ signature.
      structural_hash_dict (record {
        topology = topology_from_ir ir;
        signatures = node_signatures ir.nodes [];
        state_schema = signature;
        rule_pack_versions = sorted versions;
        pack_requires = pack_requires_component ir.governance;
      })
