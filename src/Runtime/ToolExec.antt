-- ===== src/Runtime/ToolExec.antt =====
-- `execute_tool` of src/stargraph/runtime/tool_exec.py: the nine steps that every call of a tool takes.
-- The validator of jsonschema is a parameter: what it finds of a payload, the first by path in front.
mod Sanitize
mod Models
unfoldable pub use Sanitize.{sanitize_str, sanitize, sanitize_payload}
pub use Models.{
  ReplayPolicy, must_stub, fail_loud, recorded_result, Spec, Required, no_capability,
  one_capability, capabilities, Tool, ToolFact, RunContext, Effects, ToolResult, Exec, pure, raise,
  lift,
}
unfoldable pub use Models.{default_replay_policy, permissions_of, decorate, after, ◌>>=◌}
pub mod Clean
pub mod Calls
pub mod Outcome
use Prim.Native.String.{◌++◌ as text_append}
use stargraph.Common.{
  ℕ, String, Bool, true, false, not, ◌&&◌, ◌||◌, Option, none, some, List, [], ◌∷◌, ◌++◌, Value,
  null, bool, int, neg_int, str, atom, obj, arr, Members, no_member, member, Record, Result, ok,
  err, Error, ir_validation_error, capability_error, replay_error, runtime_error, length,
  string_keys, if◌then◌else◌,
}
use stargraph.Common.Dict.{lookup, insert, update}
use stargraph.Graph.Definition.{SideEffects, no_effects, read, write, external}
use stargraph.Security.Capabilities.{Capabilities, ToolSpec, check}

abbrev pub Validator : Type 0
Validator = Value → Record → List String

-- `_validate`
unfoldable pub validate_payload : Validator → String → Value → Record → Result {0} Unit
validate_payload iter_errors kind schema payload = elim (iter_errors schema payload) [
  | [] ↦ ok tt
  | message ∷ _ ↦ err (ir_validation_error (text_append "tool-" (text_append kind "-schema")))
]

is_granted : Option Capabilities → ToolSpec → Bool
unfolding check
is_granted none spec = false
is_granted (some caps) spec = check caps spec

gate_for : RunContext → Spec → List String → Result {0} Unit
unfolding is_granted
gate_for ctx spec [] = ok tt
gate_for ctx spec (_ ∷ _) =
    if is_granted ctx.capabilities spec.gated then ok tt else err (capability_error spec.gated.name)

-- Step 2: a tool that needs nothing passes.
unfoldable pub gate : RunContext → Spec → Result {0} Unit
unfolding gate_for
gate ctx spec = gate_for ctx spec spec.gated.permissions

-- `spec.side_effects not in (write, external)`
abbrev pub reruns : SideEffects → Bool
reruns no_effects = true
reruns read = true
reruns write = false
reruns external = false

from_cassette : String → Record → Option (String → Record → Option Record) → Result (Option Record)
from_cassette name args none = err (replay_error name)
from_cassette name args (some cassette) = elim (cassette name args) [
  | none ↦ err (replay_error name)
  | some recorded ↦ ok (some recorded)
]

stubbed : RunContext → Spec → Record → ReplayPolicy → Result (Option Record)
unfolding from_cassette
stubbed ctx spec args fail_loud = err (replay_error spec.gated.name)
stubbed ctx spec args must_stub = from_cassette spec.gated.name args ctx.cassette
stubbed ctx spec args recorded_result = from_cassette spec.gated.name args ctx.cassette

-- `_replay_route`: a recorded payload, or `none` to run the body.
unfoldable pub replay_route : RunContext → Spec → Record → Result (Option Record)
unfolding stubbed
replay_route ctx spec args =
    if not ctx.is_replay
    then ok none
    else if reruns spec.side_effects
    then ok none
    else stubbed ctx spec args spec.replay_policy

abbrev pub fact_of : RunContext → String → Record → ToolFact
fact_of ctx template slots = record {
  template = template;
  slots = slots;
  run_id = ctx.run_id;
  step = ctx.step;
  origin = "tool";
}

-- What the adapter answers: an exception, or none.
asserted : ToolFact → Option Error → Exec {0} Unit
asserted fact none w = (ok tt, record w { facts = w.facts ++ fact ∷ [] })
asserted fact (some e) w = (err e, w)

assert_with : ToolFact → Option (ToolFact → Option Error) → Exec {0} Unit
unfolding asserted
assert_with fact none w = (ok tt, w)
assert_with fact (some adapter) w = asserted fact (adapter fact) w

-- `_emit_fact`: without an adapter nothing happens.
unfoldable pub emit_fact : RunContext → String → Record → Exec {0} Unit
unfolding assert_with
emit_fact ctx template slots = assert_with (fact_of ctx template slots) ctx.fathom

abbrev pub fields : Members → Record
fields no_member = []
fields (member k v ms) = (k, v) ∷ fields ms

-- Step 5 on a body's answer: only a dict goes on.
unfoldable pub expect_dict : Result Value → Result Record
expect_dict (err e) = err e
expect_dict (ok (obj ms)) = ok (fields ms)
expect_dict (ok _) = err (ir_validation_error "tool-non-dict-output")

-- `tool(**args)`
unfoldable pub invoke : Tool → String → Record → Exec Record
unfolding expect_dict
invoke tool name args w =
    (expect_dict (tool.body args), record w { calls = w.calls ++ (name, args) ∷ [] })

-- Step 5: the recorded payload, or that of the body.
unfoldable pub obtain : Tool → String → Record → Option Record → Exec Record
unfolding invoke
obtain tool name args (some recorded) = pure recorded
obtain tool name args none = invoke tool name args

is_int : Value → Bool
is_int (int _) = true
is_int (neg_int _) = true
is_int (bool _) = true
is_int _ = false

-- The loop of `_extract_tokens`: a `bool` is an `int` for Python.
unfoldable pub int_fields : Members → Record → Record
unfolding is_int insert
int_fields no_member out = out
int_fields (member k v ms) out =
    let with_it = int_fields ms (insert k v out) in
    let without = int_fields ms out in if is_int v then with_it else without

-- `out or None`
abbrev unless_empty : Record → Option Record
unless_empty [] = none
unless_empty (x ∷ xs) = some (x ∷ xs)

tokens_in : Option Value → Option Record
unfolding int_fields
tokens_in (some (obj ms)) = unless_empty (int_fields ms [])
tokens_in _ = none

-- `_extract_tokens`
unfoldable pub extract_tokens : Record → Option Record
unfolding tokens_in lookup
extract_tokens payload = tokens_in (lookup "_tokens" payload)

total_of : Option Value → Value
total_of none = int 0
total_of (some v) = v

-- Step 9: `{"tool_id": spec.name, **tokens}`, and a fact of the total.
unfoldable pub report_tokens : RunContext → String → Option Record → Exec {0} Unit
unfolding emit_fact total_of lookup update
report_tokens ctx name none w = (ok tt, w)
report_tokens ctx name (some tokens) w =
    emit_fact ctx "stargraph.tokens-used"
      (("tool_id", str name) ∷ ("total", total_of (lookup "total" tokens)) ∷ [])
      (record w {
        tokens_emitted = w.tokens_emitted ++ update (("tool_id", str name) ∷ []) tokens ∷ [];
      })

call_slots : Spec → Record → Record
call_slots spec args = ("tool_id", str spec.gated.name) ∷ ("args_count", int (length args)) ∷ []

result_slots : Spec → Record → Record
result_slots spec output = ("tool_id", str spec.gated.name) ∷ ("fields", int (length output)) ∷ []

abbrev pub is_stub : Option Record → Bool
is_stub none = false
is_stub (some recorded) = true

-- Steps 6 to 9, on a payload. What the sanitizer makes of a dict is a dict.
unfoldable pub finish_call :
    Validator → RunContext → Spec → Option Record → Record → Exec ToolResult
unfolding validate_payload emit_fact result_slots report_tokens extract_tokens sanitize_payload
finish_call iter_errors ctx spec route payload =
    let output = sanitize_payload payload in
    let tokens = extract_tokens payload in
    do
      _ ← lift (validate_payload iter_errors "output" spec.output_schema payload)
      _ ← emit_fact ctx "stargraph.tool-result" (result_slots spec output)
      _ ← report_tokens ctx spec.gated.name tokens
      pure (record { output = output; replayed = is_stub route; tokens = tokens })

-- Steps 4 to 9, with the route taken.
unfoldable pub proceed :
    Validator → RunContext → Tool → Spec → Record → Option Record → Exec ToolResult
unfolding emit_fact call_slots obtain finish_call
proceed iter_errors ctx tool spec args route = do
  _ ← emit_fact ctx "stargraph.tool-call" (call_slots spec args)
  payload ← obtain tool spec.gated.name args route
  finish_call iter_errors ctx spec route payload

-- Steps 1 to 9, for a tool that has a spec.
unfoldable pub run_pipeline : Validator → RunContext → Tool → Spec → Record → Exec ToolResult
unfolding validate_payload gate replay_route proceed
run_pipeline iter_errors ctx tool spec args = do
  _ ← lift (validate_payload iter_errors "input" spec.input_schema args)
  _ ← lift (gate ctx spec)
  route ← lift (replay_route ctx spec args)
  proceed iter_errors ctx tool spec args route

execute_with : Validator → RunContext → Tool → Record → Option Spec → Exec ToolResult
unfolding run_pipeline
execute_with iter_errors ctx tool args none w =
    (err (runtime_error "execute_tool requires a tool with a `.spec` ToolSpec attribute"), w)
execute_with iter_errors ctx tool args (some spec) w = run_pipeline iter_errors ctx tool spec args w

-- `execute_tool`
unfoldable pub execute_tool : Validator → Tool → Record → RunContext → Exec ToolResult
unfolding execute_with
execute_tool iter_errors tool args ctx = execute_with iter_errors ctx tool args tool.spec
