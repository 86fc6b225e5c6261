-- ===== src/Runtime/Action/Deny.antt =====
-- A rule that denies stops the run: from the engine's facts to the decision.
use stargraph.Common.{
  ℕ, suc, ◌≡◌, refl, String, Bool, true, false, Option, none, some, List, [], ◌∷◌, arith, find, ok,
  ◌==◌, string_keys, any, >>=-eq-ok, find-holds, inl, inr, Bool-cases, ◌∙◌,
}
use text.Mathlib.TextEquality.{eq_iff}
use stargraph.Ir.Actions.{Action, ActionObject, halt, interrupt}
use stargraph.Runtime.Action.{
  routed, ActionFact, extract_action, add_action, extract_actions, slot, slot_or, translate_actions,
}
use stargraph.Runtime.Action.Laws.{is_interrupt, is_halt, translate_actions-precedence}

-- The objects that Python makes for a list of actions, each with an identity of its own.
abbrev pub objects : ℕ → List Action → List ActionObject
objects n [] = []
objects n (a ∷ rest) = record { ident = n; action = a } ∷ objects (suc n) rest

abbrev pub is_deny : ActionFact → Bool
is_deny fact = slot_or fact "kind" "None" == "deny"

deny-halts :
    (kind : String) (fact : ActionFact) (a : Option Action)
    → kind == "deny" ≡ true
    → extract_action kind fact ≡ ok a
    → a ≡ some (halt "denied-by-rule")
unfolding extract_action
deny-halts kind fact a d e =
    let e' : extract_action "deny" fact ≡ ok a = rw ((eq_iff kind "deny").0 d) at e in cc

abbrev is_interrupt_action : Option Action → Bool
is_interrupt_action (some (interrupt _)) = true
is_interrupt_action _ = false

never_interrupts :
    (kind : String) (fact : ActionFact) (a : Option Action)
    → extract_action kind fact ≡ ok a
    → is_interrupt_action a ≡ false
unfolding extract_action slot
never_interrupts kind fact a e = ground arith

-- One more fact gives at most one more action, in front.
extract-cons :
    (fact : ActionFact) (facts : List ActionFact) (acts : List Action)
    → extract_actions (fact ∷ facts) ≡ ok acts
    → (a : Option Action) × (rest : List Action) × (extract_action (slot_or fact "kind" "None") fact
        ≡ ok a)
      × (extract_actions facts ≡ ok rest)
      × (add_action a rest ≡ acts)
unfolding extract_actions
extract-cons fact facts acts e =
    let (a, ea, more) = >>=-eq-ok (extract_action (slot_or fact "kind" "None") fact) _ e in
    let (rest, er, last) = >>=-eq-ok (extract_actions facts) _ more in (a, rest, ea, er, cc)

find_interrupt-add :
    (a : Option Action) (rest : List Action) (n : ℕ)
    → is_interrupt_action a ≡ false
    → ((m : ℕ) → find is_interrupt (objects m rest) ≡ none)
    → find is_interrupt (objects n (add_action a rest)) ≡ none
find_interrupt-add none rest n h later = later n
find_interrupt-add (some a) rest n h later = ground (arith, later (suc n))

no_interrupt_found :
    (facts : List ActionFact) (acts : List Action) (n : ℕ)
    → extract_actions facts ≡ ok acts
    → find is_interrupt (objects n acts) ≡ none
unfolding extract_actions
no_interrupt_found [] acts n e = ground arith
no_interrupt_found (fact ∷ facts) acts n e =
    let (a, rest, ea, er, eq) = extract-cons fact facts acts e in
    rw (← eq) (
      find_interrupt-add a rest n (never_interrupts (slot_or fact "kind" "None") fact a ea)
        (λ m. no_interrupt_found facts rest m er))

find_halt-add :
    (a : Option Action) (rest : List Action) (n : ℕ)
    → ((m : ℕ) → (o : ActionObject) × (find is_halt (objects m rest) ≡ some o))
    → (o : ActionObject) × (find is_halt (objects n (add_action a rest)) ≡ some o)
find_halt-add none rest n later = later n
find_halt-add (some (halt reason)) rest n later = (record { ident = n; action = halt reason }, refl)
find_halt-add (some a) rest n later = let (o, h) = later (suc n) in (o, ground arith)

halt_found :
    (facts : List ActionFact) (acts : List Action) (n : ℕ)
    → extract_actions facts ≡ ok acts
    → any is_deny facts ≡ true
    → (o : ActionObject) × (find is_halt (objects n acts) ≡ some o)
unfolding extract_actions
halt_found [] acts n e d = cc
halt_found (fact ∷ facts) acts n e d =
    let (a, rest, ea, er, eq) = extract-cons fact facts acts e in
    elim (Bool-cases (is_deny fact)) [
      | inl deny ↦
          let o : ActionObject = record { ident = n; action = halt "denied-by-rule" } in
          let eq' : add_action (some (halt "denied-by-rule")) rest ≡ acts =
            rw (deny-halts (slot_or fact "kind" "None") fact a deny ea) at eq in
          (o, rw (← eq') refl)
      | inr other ↦
          rw (← eq) (find_halt-add a rest n (λ m. halt_found facts rest m er (ground arith)))
    ]

-- Whatever else the facts ask for, if `extract_actions` accepts them and one of them is a `deny`,
-- the decision is an action that halts.
pub deny_fails_closed :
    (facts : List ActionFact) (acts : List Action)
    → extract_actions facts ≡ ok acts
    → any is_deny facts ≡ true
    → (o : ActionObject) × (translate_actions (objects 0 acts) ≡ routed o) × (is_halt o ≡ true)
deny_fails_closed facts acts e d =
    let (o, h) = halt_found facts acts 0 e d in
    (
      o,
      translate_actions-precedence (objects 0 acts)
          ∙ ground (arith, no_interrupt_found facts acts 0 e, h),
      find-holds is_halt (objects 0 acts) o h,
    )
