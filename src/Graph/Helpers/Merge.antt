-- ===== src/Graph/Helpers/Merge.antt =====
-- `_merge_branch_results` of src/stargraph/graph/_loop_helpers.py.
use stargraph.Common.{
  String, Option, none, some, List, [], ◌∷◌, ◌++◌, Value, Record, Result, ok, err, ◌>>=◌,
  runtime_error, get_last?, string_keys,
}
use mathlib.Core.List.{foldl}
use stargraph.Common.Dict.{Dict, lookup, insert}
use stargraph.Graph.State.{State, dict, no_state}

-- A reducer that combines two values. The registry answers None for a field that it does not know,
-- or whose lookup raises.
abbrev pub Reducer : Type 0
Reducer = Value → Value → Value

abbrev pub Registry : Type 0
Registry = String → Option Reducer

-- The values that the branches wrote, field by field, in the order of the branches.
abbrev pub Written : Type 0
Written = Dict String (List Value)

-- `all_keys.setdefault(key, []).append(value)`
add_value : Written → String → Value → Written
unfolding lookup insert
add_value w key v = elim (lookup key w) [
  | none ↦ insert key (v ∷ []) w
  | some vs ↦ insert key (vs ++ v ∷ []) w
]

add_branch : Written → Record → Written
unfolding add_value
add_branch w [] = w
add_branch w ((key, v) ∷ fields) = add_branch (add_value w key v) fields

-- A branch that is no dict ends the walk: None.
collect : Written → List State → Option Written
unfolding add_branch
collect w [] = some w
collect w (dict fields ∷ rest) = collect (add_branch w fields) rest
collect w (_ ∷ rest) = none

-- The value of one field. A conflict that no reducer settles raises.
merge_field : Option Registry → String → List Value → Result (Option Value)
merge_field registry name [] = ok none
merge_field registry name (v ∷ []) = ok (some v)
merge_field none name (v ∷ u ∷ vs) = err (runtime_error name)
merge_field (some get) name (v ∷ u ∷ vs) = elim (get name) [
  | none ↦ err (runtime_error name)
  | some reduce ↦ ok (some (foldl reduce v (u ∷ vs)))
]

abbrev put : String → Option Value → Record → Record
put name none merged = merged
put name (some v) merged = (name, v) ∷ merged

-- The fields are distinct keys of a dict, so each write is of a new key.
merge_fields : Option Registry → Written → Result Record
unfolding merge_field
merge_fields registry [] = ok []
merge_fields registry ((name, vs) ∷ w) = do
  v ← merge_field registry name vs
  rest ← merge_fields registry w
  ok (put name v rest)

abbrev pub last_state : List State → State
last_state results = elim (get_last? results) [ none ↦ no_state | some s ↦ s ]

unfoldable pub merge_branch_results : List State → Option Registry → Result State
unfolding collect merge_fields
merge_branch_results results registry = elim (collect [] results) [
  | none ↦ ok (last_state results)
  | some w ↦ (do merged ← merge_fields registry w; ok (dict merged))
]
