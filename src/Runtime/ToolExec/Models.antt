-- ===== src/Runtime/ToolExec/Models.antt =====
-- What `execute_tool` of src/stargraph/runtime/tool_exec.py reads and writes: the tool, the context, and
-- the effects of a call. With them the enums of src/stargraph/tools/spec.py and the defaults of `@tool`.
use stargraph.Common.{
  ℕ, String, Bool, Option, none, some, List, [], ◌∷◌, Value, Record, Result, ok, err, Error,
}
use stargraph.Graph.Definition.{SideEffects, no_effects, read, write, external}
use stargraph.Security.Capabilities.{Capabilities, ToolSpec}

-- `ReplayPolicy`
pub data ReplayPolicy : Type 0 where
  must_stub : ReplayPolicy
  fail_loud : ReplayPolicy
  recorded_result : ReplayPolicy

-- The fields of a `ToolSpec` that only the execution reads, beside those that the gates read.
pub record Spec : Type 0 where
  pub gated : ToolSpec
  pub input_schema : Value
  pub output_schema : Value
  pub side_effects : SideEffects
  pub replay_policy : ReplayPolicy

-- `_default_replay_policy` of src/stargraph/tools/decorator.py
unfoldable pub default_replay_policy : SideEffects → ReplayPolicy
default_replay_policy no_effects = recorded_result
default_replay_policy read = recorded_result
default_replay_policy write = must_stub
default_replay_policy external = must_stub

-- `requires_capability` of `@tool`: nothing, one text, or a list.
pub data Required : Type 0 where
  no_capability : Required
  one_capability : String → Required
  capabilities : List String → Required

unfoldable pub permissions_of : Required → List String
permissions_of no_capability = []
permissions_of (one_capability c) = c ∷ []
permissions_of (capabilities cs) = cs

-- The spec that `@tool` hangs on a callable, by the schemas that it derives.
unfoldable pub decorate :
    String → String → String → SideEffects → Option ReplayPolicy → Required → Value → Value → Spec
unfolding default_replay_policy permissions_of
decorate name namespace version side_effects policy required input output = record {
  gated = record {
    namespace = namespace;
    name = name;
    version = version;
    permissions = permissions_of required;
  };
  input_schema = input;
  output_schema = output;
  side_effects = side_effects;
  replay_policy = elim policy [ none ↦ default_replay_policy side_effects | some p ↦ p ];
}

-- A callable with its `spec`, where it has one. The body answers, or raises.
pub record Tool : Type 0 where
  pub spec : Option Spec
  pub body : Record → Result Value

-- A fact with the part of its provenance that varies.
pub record ToolFact : Type 0 where
  pub template : String
  pub slots : Record
  pub run_id : String
  pub step : ℕ
  pub origin : String

-- The adapter answers an assertion with the exception that it raises, or with none; the cassette
-- answers a lookup.
pub record RunContext : Type 0 where
  pub run_id : String
  pub step : ℕ
  pub capabilities : Option Capabilities
  pub fathom : Option (ToolFact → Option Error)
  pub is_replay : Bool
  pub cassette : Option (String → Record → Option Record)
  pub deployment : String

-- What calls leave behind: the calls of tool bodies, the facts asserted, `tokens_emitted`.
pub record Effects : Type 0 where
  pub calls : List (String × Record)
  pub facts : List ToolFact
  pub tokens_emitted : List Record

pub record ToolResult : Type 0 where
  pub output : Record
  pub replayed : Bool
  pub tokens : Option Record

-- A call that may raise, with its effects.
abbrev pub Exec {ℓ} : Type ℓ → Type ℓ
Exec A = Effects → Result A × Effects

module _ {ℓ κ} {A : Type ℓ} {B : Type κ} where
  unfoldable pub after : Result A × Effects → (A → Exec B) → Result B × Effects
  after (ok x, w) next = next x w
  after (err e, w) next = (err e, w)

  infixl 5 ◌>>=◌
  unfoldable pub ◌>>=◌ : Exec A → (A → Exec B) → Exec B
  unfolding after
  (first >>= next) w = after (first w) next

module _ {ℓ} {A : Type ℓ} where
  abbrev pub pure : A → Exec A
  pure x w = (ok x, w)

  abbrev pub raise : Error → Exec A
  raise e w = (err e, w)

  -- A pure call that may raise.
  abbrev pub lift : Result A → Exec A
  lift r w = (r, w)
