-- ===== src/Ir/Actions.antt =====
-- The action vocabulary of rules (src/stargraph/ir/_models.py), as Python objects.
use stargraph.Common.{ℕ, String, Option, List, Record}

-- `timeout` counts seconds; `on_timeout` is "halt" or "goto:<node_id>".
pub record InterruptAction : Type 0 where
  pub prompt : String
  pub interrupt_payload : Record
  pub requested_capability : Option String
  pub timeout : Option ℕ
  pub on_timeout : String

pub data Action : Type 0 where
  goto : String → Action
  halt : String → Action
  parallel : List String → String → String → Action
  retry : String → ℕ → Action
  assert : String → String → Action
  retract : String → Action
  interrupt : InterruptAction → Action

-- An object of the heap: `ident` is its identity, which Python's `is` compares.
pub record ActionObject : Type 0 where
  pub ident : ℕ
  pub action : Action
