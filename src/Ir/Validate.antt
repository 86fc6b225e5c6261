-- ===== src/Ir/Validate.antt =====
-- `validate` of src/stargraph/ir/_validate.py: the stages that a document passes, each of which reports all
-- that it finds. An error keeps its path and the text that it is about.
pub mod Laws
pub mod Pointer
use Prim.Native.Char.{Char, char, code}
use stargraph.Common.{
  ℕ, suc, String, Bool, true, false, not, Option, none, some, List, [], ◌∷◌, ◌++◌, ◌&&◌, ◌||◌,
  Value, str, obj, Record, Result, ok, err, if◌then◌else◌, nat_eq, ◌==◌, string_keys, text_append,
  map, value_error, is_some,
}
use stargraph.Common.Decimal.{decimal}
use stargraph.Common.Dict.{Dict, lookup, insert}
use stargraph.Ir.Ids.{contains, validate_stable_id}
use stargraph.Ir.When.{When, raw, sugar, compile_when, when_node_ref}
use stargraph.Ir.Versioning.{check_version}

pub record NodeIr : Type 0 where
  pub id : String
  pub config : Record

pub record RuleIr : Type 0 where
  pub id : String
  pub cond : When

-- `IRDocument`, as far as the stages read it: tools, skills and packs by their ids, stores by their names.
pub record Document : Type 0 where
  pub nodes : List NodeIr
  pub rules : List RuleIr
  pub governance : List String
  pub tools : List String
  pub skills : List String
  pub stores : List String

pub record IrError : Type 0 where
  pub path : String
  pub about : String

abbrev pub tilde : Char
tilde = char 126 tt

abbrev pub slash : Char
slash = char 47 tt

abbrev pub zero_char : Char
zero_char = char 48 tt

abbrev pub one_char : Char
one_char = char 49 tt

-- `s.replace(c, "~" + by)`, at the character c of the code n
abbrev pub escape_char : ℕ → Char → String → String
escape_char n by String.[] = String.[]
escape_char n by (String.◌∷◌ c s) =
    let rest = escape_char n by s in
    if nat_eq (code c) n then String.◌∷◌ tilde (String.◌∷◌ by rest) else String.◌∷◌ c rest

-- `replace("~", "~0").replace("/", "~1")`
unfoldable pub escape_segment : String → String
escape_segment s = escape_char b'/' one_char (escape_char b'~' zero_char s)

-- `_loc_to_pointer`, of segments that are texts already.
unfoldable pub loc_to_pointer : List String → String
unfolding escape_segment
loc_to_pointer [] = String.[]
loc_to_pointer (s ∷ loc) = String.◌∷◌ slash (text_append (escape_segment s) (loc_to_pointer loc))

-- One of `exc.errors()`.
pub record Detail : Type 0 where
  pub loc : List String
  pub input : String

-- What Pydantic makes of a value: a document, or an exception with at least one error.
pub data Parsed : Type 0 where
  invalid : Detail → List Detail → Parsed
  valid : Document → Parsed

-- `_to_stargraph_error`
unfoldable pub to_stargraph_error : Detail → IrError
unfolding loc_to_pointer
to_stargraph_error d = record { path = loc_to_pointer d.loc; about = d.input }

-- A `for` over items and their indices that appends errors to a list.
abbrev pub for_each {ℓ} : {A : Type ℓ} → (ℕ → A → List IrError) → ℕ → List A → List IrError
for_each f n [] = []
for_each f n (x ∷ xs) = f n x ++ for_each f (suc n) xs

abbrev pub located : String → ℕ → String → String
located field idx key =
    text_append "/"
      (text_append field (text_append "/" (text_append (decimal idx) (text_append "/" key))))

-- The body of the three loops over ids.
unfoldable pub check_id : String → String → ℕ → String → List IrError
unfolding validate_stable_id
check_id kind field idx i = elim (validate_stable_id kind i) [
  | ok _ ↦ []
  | err _ ↦ record { path = located field idx "id"; about = i } ∷ []
]

abbrev pub node_ids : List NodeIr → List String
node_ids ns = map (λ n. n.id) ns

abbrev pub rule_ids : List RuleIr → List String
rule_ids rs = map (λ r. r.id) rs

unfoldable pub check_ids : Document → List IrError
unfolding check_id
check_ids doc =
    for_each (check_id "node" "nodes") 0 (node_ids doc.nodes)
    ++ (for_each (check_id "rule" "rules") 0 (rule_ids doc.rules)
        ++ for_each (check_id "pack" "governance") 0 doc.governance)

-- The body of the loop of `_check_rule_when_sugar`.
unfoldable pub check_when : (Value → String) → List String → ℕ → RuleIr → List IrError
unfolding compile_when when_node_ref
check_when text ids idx r = elim r.cond [
  | raw s ↦ []
  | sugar m ↦ elim (compile_when text (sugar m)) [
    | err _ ↦ record { path = located "rules" idx "when"; about = r.id } ∷ []
    | ok _ ↦ elim (when_node_ref (sugar m)) [
      | none ↦ []
      | some ref ↦
          if contains ref ids
          then []
          else record { path = located "rules" idx "when"; about = ref } ∷ []
    ]
  ]
]

unfoldable pub check_rule_when_sugar : (Value → String) → Document → List IrError
unfolding check_when
check_rule_when_sugar text doc = for_each (check_when text (node_ids doc.nodes)) 0 doc.rules

-- The inner loop of `_detect_within_ir_duplicates`: `seen` gives the first index of each value.
unfoldable pub check_unique : String → String → ℕ → Dict String ℕ → List String → List IrError
unfolding lookup insert
check_unique field key idx seen [] = []
check_unique field key idx seen (value ∷ values) =
    let again = check_unique field key (suc idx) seen values in
    let later = check_unique field key (suc idx) (insert value idx seen) values in
    elim (lookup value seen) [
      | some prior ↦ record { path = located field idx key; about = value } ∷ again
      | none ↦ later
    ]

unfoldable pub detect_within_ir_duplicates : Document → List IrError
unfolding check_unique
detect_within_ir_duplicates doc =
    check_unique "nodes" "id" 0 [] (node_ids doc.nodes)
    ++ (check_unique "rules" "id" 0 [] (rule_ids doc.rules)
        ++ (check_unique "governance" "id" 0 [] doc.governance
            ++ (check_unique "tools" "id" 0 [] doc.tools
                ++ (check_unique "skills" "id" 0 [] doc.skills
                    ++ check_unique "stores" "name" 0 [] doc.stores))))

-- `key.endswith("_cypher")`
abbrev ends_with : String → String → Bool
ends_with s String.[] = s == ""
ends_with s (String.◌∷◌ c t) = String.◌∷◌ c t == s || ends_with s t

unfoldable pub is_cypher_key : String → Bool
is_cypher_key key = key == "cypher" || ends_with "_cypher" key

-- One entry of a node's config; `lint` is the Cypher linter, and says whether it raises.
unfoldable pub lint_entry : (String → Bool) → ℕ → ℕ → String × Value → List IrError
unfolding is_cypher_key
lint_entry lint n_idx i (key, str query) =
    if is_cypher_key key && lint query
    then record {
      path = text_append "/nodes/" (text_append (decimal n_idx) (text_append "/config/" key));
      about = query;
    }
      ∷ []
    else []
lint_entry lint n_idx i (key, v) = []

unfoldable pub lint_cypher_in_node_configs : (String → Bool) → Document → List IrError
unfolding lint_entry
lint_cypher_in_node_configs lint doc =
    for_each (λ n_idx node. for_each (lint_entry lint n_idx) 0 node.config) 0 doc.nodes

abbrev pub or_else : List IrError → List IrError → List IrError
or_else [] later = later
or_else (e ∷ es) later = e ∷ es

-- `check_version` of a value that is a dict.
unfoldable pub version_errors : Option Record → List IrError
unfolding check_version lookup
version_errors none = []
version_errors (some ir) = elim (check_version (lookup "ir_version" ir)) [
  | none ↦ []
  | some version ↦ record { path = "/ir_version"; about = version } ∷ []
]

-- What `validate` finds in a value: it is a dict with the entries `as_dict`, or it is not.
unfoldable pub validate_parsed :
    (Value → String) → (String → Bool) → Parsed → Option Record → List IrError
unfolding check_ids check_rule_when_sugar detect_within_ir_duplicates lint_cypher_in_node_configs
    version_errors to_stargraph_error
validate_parsed text lint (invalid d ds) as_dict = to_stargraph_error d ∷ map to_stargraph_error ds
validate_parsed text lint (valid doc) as_dict = or_else (check_ids doc) (
    or_else (check_rule_when_sugar text doc) (
      or_else (detect_within_ir_duplicates doc)
        (or_else (lint_cypher_in_node_configs lint doc) (version_errors as_dict))))

-- The outside of `validate`: `json.loads`, which may raise, and Pydantic's `model_validate`, which tells also
-- whether the value is a dict.
pub record Parser (A : Type 0) : Type 0 where
  pub loads : String → Option A
  pub model_validate : A → Parsed
  pub as_dict : A → Option Record

pub data Input (A : Type 0) : Type 0 where
  json : String → Input A
  value : A → Input A

-- `validate`
unfoldable pub validate :
    {A : Type 0} → Parser A → (Value → String) → (String → Bool) → Input A → List IrError
unfolding validate_parsed
validate parser text lint (json s) = elim (parser.loads s) [
  | none ↦ record { path = "/"; about = s } ∷ []
  | some v ↦ validate_parsed text lint (parser.model_validate v) (parser.as_dict v)
]
validate parser text lint (value v) =
    validate_parsed text lint (parser.model_validate v) (parser.as_dict v)
