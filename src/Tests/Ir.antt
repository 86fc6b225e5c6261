-- ===== src/Tests/Ir.antt =====
-- Ids, rule patterns and the validation of documents.
use Prim.Native.Char.{char}
use stargraph.Graph.Definition.{Schema, GraphIr, write, check_race_side_effects, init_graph}
use stargraph.Graph.Definition.Laws.{is_ok, has_schema, init_graph-accepts}
use stargraph.Common.{
  Result, ◌&&◌, err, none, value_error, type_error, ◌==◌, string_keys, if◌then◌else◌, ◌≡◌, refl,
  ◌↔◌, ◌≤◌, String, true, false, some, List, [], ◌∷◌, Value, str, int, Record, ok, length, codes,
  text_append,
}
use stargraph.Common.Dict.{Dict}
use stargraph.Common.Decimal.{decimal}
use stargraph.Ir.Ids.{slug, given_ids, autogen_ids, validate_stable_id}
use stargraph.Ir.Ids.Generated.{distinct, autogen_ids-distinct}
use stargraph.Ir.Ids.Stable.{is_id, chomp, validate_stable_id-accepts}
use stargraph.Ir.When.{sugar, clips_string, compile_when}
use stargraph.Ir.When.Literals.{read_literal, read_literal-clips_string}
use stargraph.Ir.Versioning.{check_version}
use stargraph.Ir.Validate.{Document, valid, loc_to_pointer, validate_parsed}
use stargraph.Ir.Validate.Laws.{is_sound, validate-is_sound}

-- `str`, of texts and numbers
abbrev text : Value → String
text (str s) = s
text (int n) = decimal n
text v = "?"

abbrev parts : List Record
parts =
    (("id", str "ask") ∷ [])
    ∷ (("name", str "Ask") ∷ [])
    ∷ (("name", str "  ask!! ") ∷ [])
    ∷ (("name", str "--") ∷ [])
    ∷ []

autogen_ids-distinct_example :
    (out : List Record) × (autogen_ids text parts ≡ some out)
    × (length (given_ids text out) ≡ length parts)
    × (distinct (given_ids text out) ≡ true)
unfolding given_ids
autogen_ids-distinct_example = autogen_ids-distinct text parts (λ s. refl) refl

named :
    autogen_ids text parts
    ≡ some (
        (("id", str "ask") ∷ [])
        ∷ (("name", str "Ask") ∷ ("id", str "ask-2") ∷ [])
        ∷ (("name", str "  ask!! ") ∷ ("id", str "ask-3") ∷ [])
        ∷ (("name", str "--") ∷ ("id", str "item-2") ∷ [])
        ∷ [])
unfolding autogen_ids
named = refl

slugs : slug "Fetch the  Page (v2)!" ≡ "fetch-the-page-v2"
unfolding slug
slugs = refl

validate_stable_id-accepts_example :
    (validate_stable_id "node" "ask_user.v2" ≡ ok "ask_user.v2")
    ↔ ((length (codes "ask_user.v2") ≤ 128) × (is_id (chomp (codes "ask_user.v2")) ≡ true))
validate_stable_id-accepts_example = validate_stable_id-accepts "node" "ask_user.v2"

-- A newline at the end passes.
newline_passes : validate_stable_id "node" "ask\n" ≡ ok "ask\n"
unfolding validate_stable_id
newline_passes = refl

read_literal-clips_string_example :
    read_literal (text_append (clips_string "say \"hi\" \\") (String.◌∷◌ (char 34 tt) "))"))
    ≡ some ("say \"hi\" \\", "))")
read_literal-clips_string_example = read_literal-clips_string "say \"hi\" \\" "))"

compiled :
    compile_when text (sugar (("node", str "work") ∷ ("phase.verdict", str "refine") ∷ []))
    ≡ ok "(node-id (id work)) (phase-verdict (value \"refine\"))"
unfolding compile_when
compiled = refl

abbrev document : Document
document = record {
  nodes =
      record { id = "ask"; config = ("cypher", str "MATCH (n) RETURN n") ∷ [] }
      ∷ record { id = "work"; config = [] }
      ∷ [];
  rules =
      record { id = "again"; cond = sugar (("node", str "work") ∷ ("verdict", str "refine") ∷ []) }
      ∷ [];
  governance = "base" ∷ [];
  tools = [];
  skills = [];
  stores = [];
}

abbrev entries : Record
entries = ("ir_version", str "1.4.0") ∷ []

validate-is_sound_example :
    (validate_parsed text (λ q. false) (valid document) (some entries) ≡ [])
    ↔ (is_sound text (λ q. false) document (some entries) ≡ true)
validate-is_sound_example = validate-is_sound text (λ q. false) document (some entries)

document_passes : validate_parsed text (λ q. false) (valid document) (some entries) ≡ []
unfolding validate_parsed
document_passes = refl

other_major : check_version (some (str "2.0.0")) ≡ some "2.0.0"
unfolding check_version
other_major = refl

pointer : loc_to_pointer ("nodes" ∷ "0" ∷ "a/b~c" ∷ []) ≡ "/nodes/0/a~1b~0c"
unfolding loc_to_pointer
pointer = refl

abbrev graph_ir : GraphIr
graph_ir = record {
  doc = document;
  dump = entries;
  state_schema = ("verdict", "str") ∷ ("tries", "int") ∷ [];
  class_ref = none;
  parallel = record { targets = "ask" ∷ "work" ∷ []; join = ""; strategy = "race" } ∷ [];
}

abbrev import_class : String → String → Result Schema
import_class path name = err (value_error path)

-- Pydantic takes no field of this name.
abbrev create_model : Dict String String → Result {0} Unit
create_model [] = ok tt
create_model ((field, t) ∷ rest) =
    let later = create_model rest in if field == "__base__" then err (type_error field) else later

init_graph-accepts_example :
    is_ok (init_graph text (λ q. false) create_model import_class graph_ir)
    ≡ is_sound text (λ q. false) document (some entries)
      && has_schema create_model import_class none (("verdict", "str") ∷ ("tries", "int") ∷ [])
init_graph-accepts_example = init_graph-accepts text (λ q. false) create_model import_class graph_ir

graph_passes : is_ok (init_graph text (λ q. false) create_model import_class graph_ir) ≡ true
unfolding init_graph
graph_passes = refl

-- With known side effects a race over a writing node is refused.
race_is_refused :
    is_ok (check_race_side_effects (("work", write) ∷ []) [] graph_ir.parallel) ≡ false
unfolding check_race_side_effects
race_is_refused = refl

-- A field whose name Pydantic refuses: the document becomes no graph, although it is sound.
name_is_refused :
    is_ok (
      init_graph text
        (λ q. false)
        create_model
        import_class
        (record graph_ir { state_schema = ("__base__", "str") ∷ [] }))
    ≡ false
unfolding init_graph
name_is_refused = refl
