-- ===== src/Tests/Rules.antt =====
-- The rules' side: actions, decisions, capabilities and patterns.
use stargraph.Common.{◌≡◌, refl, ◌↔◌, String, true, none, some, List, [], ◌∷◌, string_keys}
use stargraph.Ir.Actions.{Action, ActionObject, goto, halt, retry}
use stargraph.Security.Capabilities.{Capabilities, has_permission, parse_request}
use stargraph.Security.Capabilities.Laws.{SomeCovers, has_permission-Covers}
use stargraph.Runtime.Action.{routed, ActionFact, extract_actions, translate_actions}
use stargraph.Runtime.Action.Laws.{by_precedence, is_halt, translate_actions-precedence}
use stargraph.Runtime.Action.Deny.{objects, deny_fails_closed}
use stargraph.Common.Dict.{Dict, lookup}

abbrev actions : List ActionObject
actions =
    record { ident = 0; action = retry "a" 5 }
    ∷ record { ident = 1; action = goto "b" }
    ∷ record { ident = 2; action = halt "stop" }
    ∷ []

translate_actions-precedence_example : translate_actions actions ≡ by_precedence actions
translate_actions-precedence_example = translate_actions-precedence actions

abbrev fact : String → Dict String String → ActionFact
fact kind slots = record { slots = ("kind", kind) ∷ slots; targets = []; backoff_ms = 0 }

abbrev facts : List ActionFact
facts = fact "goto" (("target", "b") ∷ []) ∷ fact "deny" [] ∷ []

abbrev extracted : List Action
extracted = goto "b" ∷ halt "denied-by-rule" ∷ []

deny_fails_closed_example :
    (o : ActionObject) × (translate_actions (objects 0 extracted) ≡ routed o) × (is_halt o ≡ true)
unfolding extract_actions lookup
deny_fails_closed_example = deny_fails_closed facts extracted refl refl

abbrev caps : Capabilities
caps = record {
  default_deny = true;
  granted =
      record { name = "db"; scope = some "users/*" } ∷ record { name = "net"; scope = none } ∷ [];
}

has_permission-Covers_example :
    (has_permission caps "db:users/7" ≡ true)
    ↔ SomeCovers caps (parse_request "db:users/7") caps.granted
has_permission-Covers_example = has_permission-Covers caps "db:users/7"
