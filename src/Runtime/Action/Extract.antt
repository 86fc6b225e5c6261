-- ===== src/Runtime/Action/Extract.antt =====
-- `extract_actions` of src/stargraph/fathom/_action.py: from the slots of the `stargraph_action`
-- facts to typed actions.
use stargraph.Common.{
  ℕ, String, Option, none, some, List, [], ◌∷◌, Result, ok, err, ◌>>=◌, key_error, validation_error,
  ◌==◌, string_keys, if◌then◌else◌,
}
use stargraph.Common.Dict.{Dict, lookup}
use stargraph.Ir.Actions.{Action, goto, halt, parallel, retry, assert, retract}

-- A fact's slots: texts, but for the list `targets` and the number `backoff_ms`.
pub record ActionFact : Type 0 where
  pub slots : Dict String String
  pub targets : List String
  pub backoff_ms : ℕ

-- `fact[name]`
unfoldable pub slot : ActionFact → String → Result String
unfolding lookup
slot fact name = elim (lookup name fact.slots) [ none ↦ err (key_error name) | some v ↦ ok v ]

-- `fact.get(name, default)`
unfoldable pub slot_or : ActionFact → String → String → String
unfolding lookup
slot_or fact name default = elim (lookup name fact.slots) [ none ↦ default | some v ↦ v ]

-- The body of the loop on one fact: an action, none (`allow` and `scope`), or an exception.
-- `fact.get("kind")` is None where the slot is missing, which no branch accepts.
unfoldable pub extract_action : String → ActionFact → Result (Option Action)
unfolding slot slot_or
extract_action kind fact =
    if kind == "goto"
    then (do t ← slot fact "target"; ok (some (goto t)))
    else if kind == "halt"
    then ok (some (halt (slot_or fact "reason" "")))
    else if kind == "parallel"
    then ok (some (parallel fact.targets (slot_or fact "join" "") (slot_or fact "strategy" "all")))
    else if kind == "retry"
    then (do t ← slot fact "target"; ok (some (retry t fact.backoff_ms)))
    else if kind == "assert"
    then (do f ← slot fact "fact"; ok (some (assert f (slot_or fact "slots" ""))))
    else if kind == "retract"
    then (do p ← slot fact "pattern"; ok (some (retract p)))
    else if kind == "deny"
    then ok (some (halt "denied-by-rule"))
    else if kind == "escalate"
    then (do t ← slot fact "escalation_target"; ok (some (goto t)))
    else if kind == "route"
    then (do t ← slot fact "target"; ok (some (goto t)))
    else if kind == "allow"
    then ok none
    else if kind == "scope"
    then ok none
    else err (validation_error kind)

abbrev pub add_action : Option Action → List Action → List Action
add_action none rest = rest
add_action (some a) rest = a ∷ rest

unfoldable pub extract_actions : List ActionFact → Result (List Action)
unfolding extract_action
extract_actions [] = ok []
extract_actions (fact ∷ facts) = do
  a ← extract_action (slot_or fact "kind" "None") fact
  rest ← extract_actions facts
  ok (add_action a rest)
