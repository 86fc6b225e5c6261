-- ===== src/Runtime/ToolExec/Sanitize.antt =====
-- The sanitizer of src/stargraph/runtime/tool_exec.py: what a tool's strings lose before a model reads them.
use Prim.Native.Char.{code}
use stargraph.Common.{
  ℕ, zero, suc, ◌+◌, String, Bool, true, false, ◌&&◌, ◌||◌, Option, none, some, [], ◌∷◌, Value,
  null, bool, int, neg_int, str, atom, obj, arr, Members, no_member, member, Elements, no_element,
  element, Record, if◌then◌else◌, nat_eq,
}
use stargraph.Ir.Ids.{between}

-- `[\x00-\x08\x0b\x0c\x0e-\x1f\x7f-\x9f]`
abbrev pub is_control : ℕ → Bool
is_control c = between 0 8 c || (between 11 12 c || (between 14 31 c || between 127 159 c))

-- `_CONTROL_CHARS_RE.sub("", value)`
abbrev pub strip_control : String → String
strip_control String.[] = String.[]
strip_control (String.◌∷◌ c s) =
    let rest = strip_control s in if is_control (code c) then rest else String.◌∷◌ c rest

-- `&#x27;` and the like, in front of a text
abbrev pub before : String → String → String
before String.[] s = s
before (String.◌∷◌ c p) s = String.◌∷◌ c (before p s)

-- `html.escape(text, quote=True)`: `&`, `<`, `>`, `"` and `'`
abbrev pub escape : String → String
escape String.[] = String.[]
escape (String.◌∷◌ c s) =
    let rest = escape s in
    let n = code c in
    if nat_eq n 38
    then before "&amp;" rest
    else if nat_eq n 60
    then before "&lt;" rest
    else if nat_eq n 62
    then before "&gt;" rest
    else if nat_eq n 34
    then before "&quot;" rest
    else if nat_eq n 39
    then before "&#x27;" rest
    else String.◌∷◌ c rest

-- Case, as a pattern of `__system__`, `im_start` and `im_end` ignores it: the dotted and the dotless
-- i and the long s are letters of it.
abbrev fold : ℕ → ℕ
fold n =
    if between 65 90 n
    then n + 32
    else if nat_eq n 304 || nat_eq n 305
    then 105
    else if nat_eq n 383
    then 115
    else n

-- A text that starts with the pattern.
abbrev pub starts_with : String → String → Bool
starts_with String.[] s = true
starts_with (String.◌∷◌ p ps) String.[] = false
starts_with (String.◌∷◌ p ps) (String.◌∷◌ c s) =
    nat_eq (fold (code c)) (fold (code p)) && starts_with ps s

-- `_SYSTEM_MARKER_RE`, at one place: the characters that it takes there, less the first one.
unfoldable pub marker_at : String → Option ℕ
marker_at s =
    if starts_with "__system__" s
    then some 9
    else if starts_with "<|im_start|>" s
    then some 11
    else if starts_with "<|im_end|>" s
    then some 9
    else none

-- One pass from the left: `skip` characters are still those of a marker.
unfoldable pub drop_markers : ℕ → String → String
unfolding marker_at
drop_markers skip String.[] = String.[]
drop_markers (suc skip) (String.◌∷◌ c s) = drop_markers skip s
drop_markers zero (String.◌∷◌ c s) = elim (marker_at (String.◌∷◌ c s)) [
  | none ↦ String.◌∷◌ c (drop_markers zero s)
  | some more ↦ drop_markers more s
]

-- `_sanitize_str`
unfoldable pub sanitize_str : String → String
unfolding drop_markers
sanitize_str value = drop_markers 0 (escape (strip_control value))

-- `_sanitize`: the keys of objects stay as they are.
unfoldable mutual
  unfolding sanitize_str

  pub sanitize : Value → Value
  sanitize (str s) = str (sanitize_str s)
  sanitize (obj ms) = obj (sanitize_members ms)
  sanitize (arr es) = arr (sanitize_elements es)
  sanitize null = null
  sanitize (bool b) = bool b
  sanitize (int n) = int n
  sanitize (neg_int n) = neg_int n
  sanitize (atom type text) = atom type text

  pub sanitize_members : Members → Members
  sanitize_members no_member = no_member
  sanitize_members (member k v ms) = member k (sanitize v) (sanitize_members ms)

  pub sanitize_elements : Elements → Elements
  sanitize_elements no_element = no_element
  sanitize_elements (element v es) = element (sanitize v) (sanitize_elements es)

-- a payload
unfoldable pub sanitize_payload : Record → Record
unfolding sanitize
sanitize_payload [] = []
sanitize_payload ((k, v) ∷ d) = (k, sanitize v) ∷ sanitize_payload d
