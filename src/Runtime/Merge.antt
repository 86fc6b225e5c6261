-- ===== src/Runtime/Merge.antt =====
-- src/stargraph/runtime/merge.py: the merge strategies of a field, their registry, and the confidence
-- that is left after a conflict.
pub mod Paths
pub mod Laws
use Prim.Native.Char.{code}
use stargraph.Common.{
  ℕ, zero, suc, ◌+◌, ◌-◌, ◌*◌, String, Bool, true, false, Option, none, some, List, [], ◌∷◌, Value,
  arr, Elements, no_element, element, Result, ok, err, ◌>>=◌, value_error, type_error, key_error,
  validation_error, nat_eq, strip_prefix, string_keys, ◌==◌, if◌then◌else◌,
}
use stargraph.Common.Dict.{Dict, lookup, insert}

-- A reducer over the values of the branches.
abbrev pub Strategy : Type 0
Strategy = List Value → Result Value

-- Python's `>` and `<` on any two values, and what `importlib` finds under a module and a name: it
-- raises, or it answers with an object, which may be no callable.
pub record Host : Type 0 where
  pub gt : Value → Value → Result Bool
  pub lt : Value → Value → Result Bool
  pub import_attr : String → String → Result (Option Strategy)

-- `_last_write`
unfoldable pub last_write : Strategy
last_write [] = err (validation_error "last-write requires at least one value")
last_write (v ∷ []) = ok v
last_write (v ∷ u ∷ vs) = last_write (u ∷ vs)

-- `out.extend(entry)`
abbrev extend : Elements → Elements → Elements
extend no_element out = out
extend (element v es) out = element v (extend es out)

entries : List Value → Result Elements
entries [] = ok no_element
entries (arr es ∷ vs) = do rest ← entries vs; ok (extend es rest)
entries (_ ∷ vs) = err (validation_error "append reducer requires list-typed branch outputs")

-- `_append`
unfoldable pub append : Strategy
unfolding entries
append values = do out ← entries values; ok (arr out)

-- The loop of Python's `max` and `min`: a value replaces the best so far if it is strictly better.
unfoldable pub best_of : (Value → Value → Result Bool) → Value → List Value → Result Value
best_of better best [] = ok best
best_of better best (v ∷ vs) = do b ← better v best; best_of better (if b then v else best) vs

unfoldable pub max : Host → Strategy
unfolding best_of
max host [] = err (validation_error "max requires at least one value")
max host (v ∷ vs) = best_of host.gt v vs

unfoldable pub min : Host → Strategy
unfolding best_of
min host [] = err (validation_error "min requires at least one value")
min host (v ∷ vs) = best_of host.lt v vs

-- `_BUILTINS`
unfoldable pub builtins : Host → Dict String Strategy
builtins host =
    ("last-write", last_write) ∷ ("append", append) ∷ ("max", max host) ∷ ("min", min host) ∷ []

pub record MergeRegistry : Type 0 where
  pub user : Dict String Strategy

-- `MergeRegistry.__init__`
abbrev pub new_merge_registry : MergeRegistry
new_merge_registry = record { user = [] }

-- `register`
unfoldable pub register_strategy : Host → String → Strategy → MergeRegistry → Result MergeRegistry
unfolding lookup insert
register_strategy host name fn r = elim (lookup name (builtins host)) [
  | some builtin ↦ err (validation_error "cannot override built-in merge strategy")
  | none ↦ ok (record r { user = insert name fn r.user })
]

-- `s.rpartition(sep)` at a single character: what stands before the last one, and behind it.
unfoldable pub rpartition : ℕ → String → Option (String × String)
rpartition sep String.[] = none
rpartition sep (String.◌∷◌ c s) = elim (rpartition sep s) [
  | some (before, after) ↦ some (String.◌∷◌ c before, after)
  | none ↦ if nat_eq (code c) sep then some (String.[], s) else none
]

unfoldable pub callable_or_raise : Option Strategy → Result Strategy
callable_or_raise none = err (type_error "custom merge strategy ref is not callable")
callable_or_raise (some fn) = ok fn

-- `_resolve_custom`, behind the prefix `custom:`
unfoldable pub resolve_custom : Host → String → Result Strategy
unfolding rpartition callable_or_raise
resolve_custom host ref = elim (rpartition 46 ref) [
  | none ↦ err (value_error "custom merge strategy requires a dotted callable path")
  | some (module_path, attr) ↦ do found ← host.import_attr module_path attr; callable_or_raise found
]

-- A name that nobody registered.
unfoldable pub unregistered : Host → String → Result Strategy
unfolding resolve_custom
unregistered host name = elim (strip_prefix "custom:" name) [
  | some ref ↦ resolve_custom host ref
  | none ↦ err (key_error "unknown merge strategy")
]

-- `get`
unfoldable pub get_strategy : Host → String → MergeRegistry → Result Strategy
unfolding lookup unregistered
get_strategy host name r = elim (lookup name (builtins host)) [
  | some builtin ↦ ok builtin
  | none ↦ elim (lookup name r.user) [ some fn ↦ ok fn | none ↦ unregistered host name ]
]

-- A confidence as a fraction.
pub record Confidence : Type 0 where
  pub numerator : ℕ
  pub denominator : ℕ

-- `confidence_after_last_write_conflict`: c * (1 - 0.5 * (n - 1) / n), over 2 * n
unfoldable pub confidence_after_last_write_conflict : Confidence → ℕ → Result Confidence
confidence_after_last_write_conflict c zero =
    err (validation_error "confidence_after_last_write_conflict requires n >= 1")
confidence_after_last_write_conflict c (suc m) = ok (record {
  numerator = c.numerator * (2 * suc m - m);
  denominator = c.denominator * (2 * suc m);
})
