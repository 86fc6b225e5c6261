-- ===== src/Runtime/Action.antt =====
-- src/stargraph/runtime/action.py and src/stargraph/fathom/_action.py: from the facts that the
-- rules engine leaves behind to one routing decision.
mod Extract
pub mod Laws
pub mod Deny
pub use Extract.{ActionFact, add_action}
unfoldable pub use Extract.{extract_action, extract_actions, slot, slot_or}
use stargraph.Common.{ℕ, String, Option, none, some, List, [], ◌∷◌, nat_eq, if◌then◌else◌}
use stargraph.Ir.Actions.{Action, ActionObject, goto, halt, parallel, interrupt}

-- `continue` is a fresh `ContinueAction`; any other decision is one of the objects handed in.
pub data RoutingDecision : Type 0 where
  continue : RoutingDecision
  routed : ActionObject → RoutingDecision

-- The four local variables of the loop.
pub record Found : Type 0 where
  pub interrupt : Option ActionObject
  pub halt : Option ActionObject
  pub goto : Option ActionObject
  pub parallel : Option ActionObject

abbrev pub nothing_found : Found
nothing_found = record { interrupt = none; halt = none; goto = none; parallel = none }

abbrev pub keep_first : Option ActionObject → ActionObject → Option ActionObject
keep_first none new = some new
keep_first (some old) new = some old

-- The body of the `for` loop. An `elif` that finds its variable set falls through the later tests,
-- which are for other classes.
note_kind : Action → ActionObject → Found → Found
note_kind (Action.interrupt _) o f = record f { interrupt = keep_first f.interrupt o }
note_kind (Action.halt _) o f = record f { halt = keep_first f.halt o }
note_kind (Action.goto _) o f = record f { goto = keep_first f.goto o }
note_kind (Action.parallel _ _ _) o f = record f { parallel = keep_first f.parallel o }
note_kind _ o f = f

scan : Found → List ActionObject → Found
unfolding note_kind
scan f [] = f
scan f (o ∷ os) = scan (note_kind o.action o f) os

-- The ladder of returns after the loop.
decide :
    Option ActionObject
    → Option ActionObject
    → Option ActionObject
    → Option ActionObject
    → RoutingDecision
decide (some i) h g p = routed i
decide none (some h) g p = routed h
decide none none (some g) p = routed g
decide none none none (some p) = routed p
decide none none none none = continue

unfoldable pub translate_actions : List ActionObject → RoutingDecision
unfolding scan decide
translate_actions actions =
    let f = scan nothing_found actions in decide f.interrupt f.halt f.goto f.parallel

-- `zip(actions, rule_ids, strict=False)`: the shorter list ends the walk.
rule_id_of : ActionObject → List ActionObject → List String → String
rule_id_of d [] ids = ""
rule_id_of d (o ∷ os) [] = ""
rule_id_of d (o ∷ os) (r ∷ rs) = if nat_eq o.ident d.ident then r else rule_id_of d os rs

unfoldable pub rule_id_for : RoutingDecision → List ActionObject → List String → String
unfolding rule_id_of
rule_id_for continue actions ids = ""
rule_id_for (routed d) actions ids = rule_id_of d actions ids
