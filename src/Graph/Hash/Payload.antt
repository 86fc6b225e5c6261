-- ===== src/Graph/Hash/Payload.antt =====
-- The passes of src/stargraph/graph/hash.py over JSON values: floats refused, large integers tagged, the
-- lists of a topology sorted, and the floats of a schema made integers.
use Prim.Native.String.{String, ◌++◌ as text_append}
use stargraph.Common.{
  ℕ, Bool, true, false, ◌||◌, Option, none, some, Value, null, bool, int, neg_int, str, atom, obj,
  arr, Members, no_member, member, Elements, no_element, element, string_keys, ◌==◌, if◌then◌else◌,
  ltb,
}
use stargraph.Common.Decimal.{decimal}
use stargraph.Common.Sorting.{TotalOrder, le_text, text_order, pair_order}

-- Is there a float at any depth? `_reject_floats` raises one and the same error at each.
unfoldable mutual
  pub has_float : Value → Bool
  has_float (atom type text) = type == "float"
  has_float (obj ms) = member_float ms
  has_float (arr es) = element_float es
  has_float null = false
  has_float (bool b) = false
  has_float (int n) = false
  has_float (neg_int n) = false
  has_float (str s) = false

  pub member_float : Members → Bool
  member_float no_member = false
  member_float (member k v ms) = has_float v || member_float ms

  pub element_float : Elements → Bool
  element_float no_element = false
  element_float (element v es) = has_float v || element_float es

abbrev safe_int : ℕ
safe_int = 9007199254740991

-- An integer that JSON keeps, or the text that stands for it.
abbrev tagged : Bool → String → Value → Value
tagged true digits v = str (text_append "__stargraph_bigint__:" digits)
tagged false digits v = v

-- `sorted(elements, key=…)`, by the order of the keys; equal keys keep their order.
insert_element : (Value → Value → Bool) → Value → Elements → Elements
insert_element le v no_element = element v no_element
insert_element le v (element u es) =
    let rest = insert_element le v es in if le v u then element v (element u es) else element u rest

sort_elements : (Value → Value → Bool) → Elements → Elements
unfolding insert_element
sort_elements le no_element = no_element
sort_elements le (element v es) = insert_element le v (sort_elements le es)

-- Where a value stands: under the key `topology`, in such a dict under `nodes` or `edges`, or anywhere else.
pub data Place : Type 0 where
  elsewhere : Place
  in_topology : Place
  node_list : Place
  edge_list : Place

abbrev pub place_of : String → Place
place_of key = if key == "topology" then in_topology else elsewhere

abbrev place_in_topology : String → Place
place_in_topology key =
    if key == "nodes" then node_list else (if key == "edges" then edge_list else elsewhere)

-- `<=` of two keys
module _ {K : Type 0} ⦃o : TotalOrder K⦄ where
  abbrev le_key : K → K → Bool
  le_key t u = o.le t u

-- Over Python's `str` of a value.
module _ (py_str : Value → String) where
  -- `_edge_sort_key`
  abbrev edge_sort_key : Value → String × (String × String)
  edge_sort_key (arr (element a (element b (element c es)))) = (py_str a, (py_str b, py_str c))
  edge_sort_key (arr (element a (element b no_element))) = (py_str a, (py_str b, ""))
  edge_sort_key edge = (py_str edge, ("", ""))

  abbrev le_str : Value → Value → Bool
  le_str v u = le_text (py_str v) (py_str u)

  abbrev le_edge : Value → Value → Bool
  le_edge v u = le_key (edge_sort_key v) (edge_sort_key u)

  -- `_normalize`
  unfoldable mutual
    unfolding sort_elements

    pub normalize_at : Place → Value → Value
    normalize_at p (int n) = tagged (ltb safe_int n) (decimal n) (int n)
    normalize_at p (neg_int n) = tagged (ltb safe_int n) (text_append "-" (decimal n)) (neg_int n)
    normalize_at in_topology (obj ms) = obj (topology_members ms)
    normalize_at p (obj ms) = obj (normalize_members ms)
    normalize_at node_list (arr es) = arr (sort_elements le_str (normalize_elements es))
    normalize_at edge_list (arr es) = arr (sort_elements le_edge (normalize_elements es))
    normalize_at p (arr es) = arr (normalize_elements es)
    normalize_at p null = null
    normalize_at p (bool b) = bool b
    normalize_at p (str s) = str s
    normalize_at p (atom type text) = atom type text

    pub normalize_members : Members → Members
    normalize_members no_member = no_member
    normalize_members (member k v ms) =
        member k (normalize_at (place_of k) v) (normalize_members ms)

    pub topology_members : Members → Members
    topology_members no_member = no_member
    topology_members (member k v ms) =
        member k (normalize_at (place_in_topology k) v) (topology_members ms)

    pub normalize_elements : Elements → Elements
    normalize_elements no_element = no_element
    normalize_elements (element v es) = element (normalize_at elsewhere v) (normalize_elements es)

abbrev pub without_float : String → Option Value → Value
without_float text none = str text
without_float text (some v) = v

-- `_coerce_schema_floats`, by what `int` makes of a float without loss.
module _ (lossless : String → Option Value) where
  unfoldable mutual
    pub coerce : Value → Value
    coerce (atom type text) =
        if type == "float" then without_float text (lossless text) else atom type text
    coerce (obj ms) = obj (coerce_members ms)
    coerce (arr es) = arr (coerce_elements es)
    coerce null = null
    coerce (bool b) = bool b
    coerce (int n) = int n
    coerce (neg_int n) = neg_int n
    coerce (str s) = str s

    pub coerce_members : Members → Members
    coerce_members no_member = no_member
    coerce_members (member k v ms) = member k (coerce v) (coerce_members ms)

    pub coerce_elements : Elements → Elements
    coerce_elements no_element = no_element
    coerce_elements (element v es) = element (coerce v) (coerce_elements es)
