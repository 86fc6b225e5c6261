-- ===== src/Ir/When.antt =====
-- The mapping form of a rule's `when`, compiled to CLIPS patterns (src/stargraph/ir/_when.py).
pub mod Literals
use Prim.Native.Char.{Char, char, code}
use stargraph.Common.{
  ℕ, String, Bool, true, false, not, Option, none, some, List, [], ◌∷◌, ◌&&◌, ◌||◌, Value, bool,
  int, neg_int, str, atom, Record, Result, ok, err, value_error, if◌then◌else◌, nat_eq, all, ◌==◌,
  string_keys, codes, text_append,
}
use stargraph.Common.Dict.{lookup}
use stargraph.Ir.Ids.{between}

-- A raw pattern, or the mapping.
pub data When : Type 0 where
  raw : String → When
  sugar : Record → When

abbrev pub backslash : Char
backslash = char 92 tt

-- Each character of that code gets a backslash in front: `value.replace(c, "\\" + c)`.
abbrev pub with_backslash : ℕ → String → String
with_backslash n String.[] = String.[]
with_backslash n (String.◌∷◌ c s) =
    let rest = String.◌∷◌ c (with_backslash n s) in
    if nat_eq (code c) n then String.◌∷◌ backslash rest else rest

-- `_clips_string`
unfoldable pub clips_string : String → String
clips_string value = with_backslash 34 (with_backslash 92 value)

abbrev is_letter : ℕ → Bool
is_letter c = between b'a' b'z' c || between b'A' b'Z' c

abbrev is_word : ℕ → Bool
is_word c = is_letter c || between b'0' b'9' c || nat_eq c b'_' || nat_eq c b'-'

-- A run of characters up to `$`, which holds at the end and before a last newline.
abbrev runs_to_end : (ℕ → Bool) → List ℕ → Bool
runs_to_end p [] = true
runs_to_end p (c ∷ []) = nat_eq c 10 || p c
runs_to_end p (c ∷ d ∷ cs) = p c && runs_to_end p (d ∷ cs)

-- `_NODE_REF_RE.match` and `_FIELD_RE.match`
abbrev is_ref : ℕ → Bool
is_ref c = is_word c || nat_eq c b'.'

abbrev matches_node_ref : List ℕ → Bool
matches_node_ref [] = false
matches_node_ref (c ∷ cs) = is_ref c && runs_to_end is_ref cs

abbrev matches_field : List ℕ → Bool
matches_field [] = false
matches_field (c ∷ cs) = (is_letter c || nat_eq c b'_') && runs_to_end is_word cs

-- `key.replace(".", "-")`
abbrev mangled : String → String
mangled String.[] = String.[]
mangled (String.◌∷◌ c s) =
    if nat_eq (code c) b'.' then text_append "-" (mangled s) else String.◌∷◌ c (mangled s)

abbrev is_scalar : Value → Bool
is_scalar (str s) = true
is_scalar (int n) = true
is_scalar (neg_int n) = true
is_scalar (bool b) = true
is_scalar (atom kind t) = kind == "float"
is_scalar v = false

-- One condition: `({field} (value "{...}"))`; `text` is `str`.
unfoldable pub condition : (Value → String) → String → Value → Result String
unfolding clips_string
condition text key value =
    let field = mangled key in
    if not (matches_field (codes field))
    then err (value_error "when key is not a valid fact-template name")
    else (if not (is_scalar value)
        then err (value_error "when value must be a scalar")
        else ok (
            text_append "(" (
              text_append field
                (text_append " (value \"" (text_append (clips_string (text value)) "\"))")))))

abbrev cons_ok : Result String → Result (List String) → Result (List String)
cons_ok (err e) rest = err e
cons_ok (ok p) (err e) = err e
cons_ok (ok p) (ok ps) = ok (p ∷ ps)

-- The `for` over the conditions.
unfoldable pub conditions : (Value → String) → Record → Result (List String)
unfolding condition
conditions text [] = ok []
conditions text ((key, value) ∷ rest) =
    let later = conditions text rest in
    if key == "node" then later else cons_ok (condition text key value) later

-- What the `node` key compiles to, if there is one.
unfoldable pub node_pattern : Option Value → Result (List String)
node_pattern none = ok []
node_pattern (some (str s)) =
    if matches_node_ref (codes s)
    then ok (text_append "(node-id (id " (text_append s "))") ∷ [])
    else err (value_error "when.node must be a node id")
node_pattern (some v) = err (value_error "when.node must be a node id")

abbrev joined : List String → String
joined [] = ""
joined (p ∷ []) = p
joined (p ∷ q ∷ ps) = text_append p (text_append " " (joined (q ∷ ps)))

abbrev finished : Result (List String) → Result (List String) → Result String
finished (err e) rest = err e
finished (ok ps) (err e) = err e
finished (ok []) (ok qs) = ok (joined qs)
finished (ok (p ∷ ps)) (ok qs) = ok (joined (p ∷ qs))

-- `compile_when`
unfoldable pub compile_when : (Value → String) → When → Result String
unfolding node_pattern conditions lookup
compile_when text (raw s) = ok s
compile_when text (sugar []) = err (value_error "when mapping is empty")
compile_when text (sugar (entry ∷ rest)) =
    finished (node_pattern (lookup "node" (entry ∷ rest))) (conditions text (entry ∷ rest))

-- `when_node_ref`
unfoldable pub when_node_ref : When → Option String
unfolding lookup
when_node_ref (raw s) = none
when_node_ref (sugar r) = elim (lookup "node" r) [ some (str s) ↦ some s | _ ↦ none ]
