-- ===== src/Graph/Definition.antt =====
-- `Graph.__init__` of src/stargraph/graph/definition.py, up to the hashes: the checks that a document passes before it
-- becomes a graph.
pub mod Laws
use stargraph.Common.{
  ℕ, String, Bool, true, false, not, Option, none, some, List, [], ◌∷◌, ◌++◌, ◌&&◌, ◌||◌, Record,
  Value, Result, ok, err, validation_error, ir_validation_error, if◌then◌else◌, ◌==◌, string_keys,
  ◌>>=◌, any, codes, nat_eq, partition, text_append,
}
use stargraph.Common.Dict.{Dict, lookup}
use stargraph.Ir.Ids.{contains}
use stargraph.Ir.Nodes.{ParallelBlock}
use stargraph.Ir.Validate.{Document, IrError, valid, validate_parsed}

-- What the constructor makes of the state: fields of simple types, or a class.
pub data Schema : Type 0 where
  fields : Dict String String → Schema
  state_class : String → Schema

pub data SideEffects : Type 0 where
  no_effects : SideEffects
  read : SideEffects
  write : SideEffects
  external : SideEffects

-- `_TYPE_MAP` and `_FORBIDDEN_STATE_SCHEMA_TYPES`
abbrev pub is_supported : String → Bool
is_supported t = t == "str" || t == "int" || t == "bool" || t == "bytes"

abbrev pub is_forbidden : String → Bool
is_forbidden t = t == "set" || t == "frozenset"

-- `_check_state_schema_no_set_fields`
unfoldable pub check_no_set_fields : Dict String String → Result {0} Unit
check_no_set_fields [] = ok tt
check_no_set_fields ((field, t) ∷ rest) =
    let later = check_no_set_fields rest in
    if is_forbidden t then err (ir_validation_error "set-field-forbidden") else later

-- The loop of `_compile_state_schema`
unfoldable pub compile_fields : Dict String String → Result {0} Unit
compile_fields [] = ok tt
compile_fields ((field, t) ∷ rest) =
    let later = compile_fields rest in
    if is_supported t then later else err (validation_error (text_append "/state_schema/" field))

-- `_resolve_state_class`: `import_class` imports the module and looks up the class, and raises where one of them is
-- missing or no model.
unfoldable pub resolve_state_class : (String → String → Result Schema) → String → Result Schema
resolve_state_class import_class ref =
    if any (λ c. nat_eq c b':') (codes ref)
    then import_class (partition b':' ref).0 (partition b':' ref).1
    else err (validation_error "/state_class")

-- `_UNSAFE_CANCEL_SIDE_EFFECTS`
abbrev pub is_unsafe : Option SideEffects → Bool
is_unsafe (some write) = true
is_unsafe (some external) = true
is_unsafe _ = false

-- The inner loop of `_check_race_side_effects`.
unfoldable pub unsafe_targets : Dict String SideEffects → List String → List String → List String
unfolding lookup
unsafe_targets effects allowed [] = []
unsafe_targets effects allowed (target ∷ targets) =
    let later = unsafe_targets effects allowed targets in
    if not (contains target allowed) && is_unsafe (lookup target effects)
    then target ∷ later
    else later

abbrev pub cancels_losers : ParallelBlock → Bool
cancels_losers block = block.strategy == "race" || block.strategy == "any"

-- The outer loop.
unfoldable pub offenders : Dict String SideEffects → List String → List ParallelBlock → List String
unfolding unsafe_targets
offenders effects allowed [] = []
offenders effects allowed (block ∷ blocks) =
    let later = offenders effects allowed blocks in
    if cancels_losers block then unsafe_targets effects allowed block.targets ++ later else later

abbrev raised_for : List String → Result {0} Unit
raised_for [] = ok tt
raised_for (node ∷ nodes) = err (ir_validation_error "unsafe-cancel")

-- `_check_race_side_effects`
unfoldable pub check_race_side_effects :
    Dict String SideEffects → List String → List ParallelBlock → Result {0} Unit
unfolding offenders
check_race_side_effects effects allowed blocks = raised_for (offenders effects allowed blocks)

-- A document, with the parts of it that only the constructor reads, and its dump.
pub record GraphIr : Type 0 where
  pub doc : Document
  pub dump : Record
  pub state_schema : Dict String String
  pub class_ref : Option String
  pub parallel : List ParallelBlock

-- `_compile_state_schema`: what stands behind its loop is Pydantic's `create_model`, which refuses some names of fields.
unfoldable pub compile_state_schema :
    (Dict String String → Result {0} Unit) → Dict String String → Result Schema
unfolding compile_fields
compile_state_schema create_model schema = do
  _ ← compile_fields schema
  _ ← create_model schema
  ok (fields schema)

-- The state's schema, of `state_class` or of `state_schema`.
unfoldable pub schema_of :
    (Dict String String → Result {0} Unit)
    → (String → String → Result Schema)
    → Option String
    → Dict String String
    → Result Schema
unfolding resolve_state_class compile_state_schema
schema_of create_model import_class none schema = compile_state_schema create_model schema
schema_of create_model import_class (some ref) [] = resolve_state_class import_class ref
schema_of create_model import_class (some ref) (entry ∷ rest) =
    err (validation_error "/state_class")

abbrev pub first_error : List IrError → Result Schema → Result Schema
first_error [] later = later
first_error (e ∷ es) later = err (validation_error e.path)

abbrev pub one_by_one : Result {0} Unit → Result Schema → Result {0} Unit → Result Schema
one_by_one no_sets schema races = no_sets >>= (λ _. schema >>= (λ made. races >>= (λ _. ok made)))

-- `Graph.__init__`: the dump of a document parses to the document again.
unfoldable pub init_graph :
    (Value → String)
    → (String → Bool)
    → (Dict String String → Result {0} Unit)
    → (String → String → Result Schema)
    → GraphIr
    → Result Schema
unfolding check_no_set_fields schema_of check_race_side_effects validate_parsed
init_graph text lint create_model import_class g =
    first_error (validate_parsed text lint (valid g.doc) (some g.dump)) (
      one_by_one (check_no_set_fields g.state_schema)
        (schema_of create_model import_class g.class_ref g.state_schema)
        (check_race_side_effects [] [] g.parallel))
