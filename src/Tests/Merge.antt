-- ===== src/Tests/Merge.antt =====
-- Merge strategies at concrete inputs.
use stargraph.Common.{
  ◌≡◌, refl, String, Bool, none, some, List, [], ◌∷◌, Value, int, arr, no_element, element, Result,
  ok, err, type_error, ltb, string_keys, ◌==◌, if◌then◌else◌,
}
use stargraph.Common.Dict.{lookup}
use stargraph.Runtime.Merge.{
  Strategy, Host, builtins, new_merge_registry, get_strategy, rpartition, last_write, append, max,
  min, confidence_after_last_write_conflict,
}
use stargraph.Runtime.Merge.Laws.{register_all, Answers, get_strategy-register_all}

abbrev int_lt : Value → Value → Result Bool
int_lt (int a) (int b) = ok (ltb a b)
int_lt _ _ = err (type_error "'<' not supported")

-- `math.fsum` is the one callable that can be imported.
abbrev host : Host
host = record {
  gt = λ a b. int_lt b a;
  lt = int_lt;
  import_attr = λ path attr.
      if path == "pkg.math"
      then (if attr == "fsum" then ok (some last_write) else ok none)
      else err (type_error "ModuleNotFoundError");
}

abbrev numbers : List Value
numbers = int 3 ∷ int 7 ∷ int 1 ∷ []

max_of_numbers : max host numbers ≡ ok (int 7)
unfolding max
max_of_numbers = refl

min_of_numbers : min host numbers ≡ ok (int 1)
unfolding min
min_of_numbers = refl

last_of_numbers : last_write numbers ≡ ok (int 1)
unfolding last_write
last_of_numbers = refl

appended :
    append (arr (element (int 1) no_element) ∷ arr (element (int 2) no_element) ∷ [])
    ≡ ok (arr (element (int 1) (element (int 2) no_element)))
unfolding append
appended = refl

last_dot : rpartition 46 "pkg.math.fsum" ≡ some ("pkg.math", "fsum")
unfolding rpartition
last_dot = refl

-- Two branches: three quarters.
two_branches :
    confidence_after_last_write_conflict (record { numerator = 1; denominator = 1 }) 2
    ≡ ok (record { numerator = 3; denominator = 4 })
unfolding confidence_after_last_write_conflict
two_branches = refl

-- The first call raises, the third one replaces the second.
abbrev calls : List (String × Strategy)
calls = ("max", last_write) ∷ ("mine", append) ∷ ("mine", last_write) ∷ []

get_strategy-register_all_example :
    Answers host calls "mine"
      (get_strategy host "mine" (register_all host calls new_merge_registry))
get_strategy-register_all_example = get_strategy-register_all host calls "mine"

mine_is_replaced :
    get_strategy host "mine" (register_all host calls new_merge_registry) ≡ ok last_write
unfolding get_strategy register_all lookup builtins
mine_is_replaced = refl

custom_is_imported :
    get_strategy host "custom:pkg.math.fsum" (register_all host calls new_merge_registry)
    ≡ ok last_write
unfolding get_strategy register_all lookup builtins
custom_is_imported = refl
