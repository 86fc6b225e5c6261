-- ===== src/Runtime/ToolExec/Calls.antt =====
-- When the body of a tool runs.
use mathlib.Core.Path.{subst}
use Prim.Native.String.{String}
use stargraph.Common.{
  ◌≡◌, refl, ◌⊎◌, inl, inr, ◌∙◌, true, false, Option, none, some, List, [], ◌∷◌, ◌++◌, Value,
  Record, Result, ok, err, Error, arith, Bool-cases, Option-cases,
}
use stargraph.Graph.Definition.{SideEffects, no_effects, read, write, external}
use stargraph.Security.Capabilities.{Capabilities, check}
use stargraph.Runtime.ToolExec.{
  Validator, validate_payload, gate, replay_route, RunContext, Tool, Spec, Effects, Exec, ToolFact,
  after, ◌>>=◌, lift, emit_fact, fact_of, asserted, assert_with, obtain, invoke, report_tokens,
  finish_call, proceed, run_pipeline, execute_with, execute_tool, reruns, call_slots, is_granted,
  gate_for, stubbed, ReplayPolicy, must_stub, fail_loud, recorded_result, from_cassette,
}

-- A step that runs no body.
abbrev IsQuiet {ℓ} : {A : Type ℓ} → Exec A → Type 0
IsQuiet m = (w : Effects) → (m w).1.calls ≡ w.calls

module _ {A B : Type 0} where
  after-calls :
      (out : Result A × Effects) (next : A → Exec B)
      → ((x : A) → IsQuiet (next x))
      → (after out next).1.calls ≡ out.1.calls
  unfolding after
  after-calls (ok x, w) next quiet = quiet x w
  after-calls (err e, w) next quiet = refl

  >>=-IsQuiet :
      (first : Exec A) (next : A → Exec B)
      → IsQuiet first
      → ((x : A) → IsQuiet (next x))
      → IsQuiet (first >>= next)
  unfolding ◌>>=◌
  >>=-IsQuiet first next calm quiet w = after-calls (first w) next quiet ∙ calm w

asserted-IsQuiet : (fact : ToolFact) (answer : Option Error) → IsQuiet (asserted fact answer)
unfolding asserted
asserted-IsQuiet fact none w = refl
asserted-IsQuiet fact (some e) w = refl

assert_with-IsQuiet :
    (fact : ToolFact) (o : Option (ToolFact → Option Error)) → IsQuiet (assert_with fact o)
unfolding assert_with
assert_with-IsQuiet fact none w = refl
assert_with-IsQuiet fact (some adapter) w = asserted-IsQuiet fact (adapter fact) w

emit_fact-IsQuiet :
    (ctx : RunContext) (template : String) (slots : Record) → IsQuiet (emit_fact ctx template slots)
unfolding emit_fact
emit_fact-IsQuiet ctx template slots = assert_with-IsQuiet (fact_of ctx template slots) ctx.fathom

report_tokens-IsQuiet :
    (ctx : RunContext) (name : String) (tokens : Option Record)
    → IsQuiet (report_tokens ctx name tokens)
unfolding report_tokens
report_tokens-IsQuiet ctx name none w = refl
report_tokens-IsQuiet ctx name (some tokens) w = emit_fact-IsQuiet ctx _ _ _

finish_call-IsQuiet :
    (iter_errors : Validator) (ctx : RunContext) (spec : Spec) (route : Option Record)
    (payload : Record)
    → IsQuiet (finish_call iter_errors ctx spec route payload)
unfolding finish_call
finish_call-IsQuiet iter_errors ctx spec route payload =
    >>=-IsQuiet _ _ (λ w. refl)
      λ _.
        >>=-IsQuiet _ _ (emit_fact-IsQuiet ctx _ _)
          λ _. >>=-IsQuiet _ _ (report_tokens-IsQuiet ctx _ _) λ _ w. refl

-- Nothing needed, or everything needed granted.
abbrev pub IsGranted : RunContext → Spec → Type 0
IsGranted ctx spec =
    (spec.gated.permissions ≡ [])
    ⊎ ((caps : Capabilities) × (ctx.capabilities ≡ some caps) × (check caps spec.gated ≡ true))

-- What holds where a body runs: valid arguments, a grant, and on a replay a tool that changes nothing.
pub record IsCleared (iter_errors : Validator) (ctx : RunContext) (spec : Spec) (args : Record)
    : Type 0 where
  pub valid : iter_errors spec.input_schema args ≡ []
  pub granted : IsGranted ctx spec
  pub native :
      (ctx.is_replay ≡ false) ⊎ ((spec.side_effects ≡ no_effects) ⊎ (spec.side_effects ≡ read))

pub validate_payload-empty :
    (iter_errors : Validator) (kind : String) (schema : Value) (payload : Record)
    → validate_payload iter_errors kind schema payload ≡ ok tt
    → iter_errors schema payload ≡ []
unfolding validate_payload
validate_payload-empty iter_errors kind schema payload h = ground arith

gate_for-IsGranted :
    (ctx : RunContext) (spec : Spec) (permissions : List String)
    → spec.gated.permissions ≡ permissions
    → gate_for ctx spec permissions ≡ ok tt
    → IsGranted ctx spec
unfolding gate_for is_granted
gate_for-IsGranted ctx spec [] same h = inl same
gate_for-IsGranted ctx spec (p ∷ ps) same h = elim (Option-cases ctx.capabilities) [
  | inl alone ↦ absurd (ground (arith, alone))
  | inr (caps, wired) ↦ inr (caps, wired, ground (arith, wired))
]

from_cassette-never_none :
    (name : String) (args : Record) (o : Option (String → Record → Option Record))
    → ¬ (from_cassette name args o ≡ ok none)
unfolding from_cassette
from_cassette-never_none name args none h = cc
from_cassette-never_none name args (some cassette) h = elim (Option-cases (cassette name args)) [
  | inl missing ↦ absurd (ground (arith, missing))
  | inr (recorded, found) ↦ absurd (ground (arith, found))
]

-- A route by the policy never leads to the body.
stubbed-never_none :
    (ctx : RunContext) (spec : Spec) (args : Record) (policy : ReplayPolicy)
    → ¬ (stubbed ctx spec args policy ≡ ok none)
unfolding stubbed
stubbed-never_none ctx spec args fail_loud h = cc
stubbed-never_none ctx spec args must_stub h =
    from_cassette-never_none spec.gated.name args ctx.cassette h
stubbed-never_none ctx spec args recorded_result h =
    from_cassette-never_none spec.gated.name args ctx.cassette h

reruns-harmless : (e : SideEffects) → reruns e ≡ true → (e ≡ no_effects) ⊎ (e ≡ read)
reruns-harmless no_effects h = inl refl
reruns-harmless read h = inr refl
reruns-harmless write h = cc
reruns-harmless external h = cc

pub replay_route-native :
    (ctx : RunContext) (spec : Spec) (args : Record)
    → replay_route ctx spec args ≡ ok none
    → (ctx.is_replay ≡ false) ⊎ ((spec.side_effects ≡ no_effects) ⊎ (spec.side_effects ≡ read))
unfolding replay_route
replay_route-native ctx spec args h = elim (Bool-cases ctx.is_replay) [
  | inr live ↦ inl live
  | inl replayed ↦ elim (Bool-cases (reruns spec.side_effects)) [
    | inl harmless ↦ inr (reruns-harmless spec.side_effects harmless)
    | inr writes ↦
        absurd (stubbed-never_none ctx spec args spec.replay_policy (rw (replayed, writes) at h))
  ]
]

module _ (iter_errors : Validator) (ctx : RunContext) (tool : Tool) (spec : Spec)
    (args : Record) where
  abbrev call : String × Record
  call = (spec.gated.name, args)

  -- With a recorded payload no body runs.
  proceed-stubbed :
      (recorded : Record) → IsQuiet (proceed iter_errors ctx tool spec args (some recorded))
  unfolding proceed obtain
  proceed-stubbed recorded = >>=-IsQuiet _ _ (emit_fact-IsQuiet ctx _ _) λ _.
      >>=-IsQuiet _ _ (λ w. refl)
        λ payload. finish_call-IsQuiet iter_errors ctx spec (some recorded) payload

  -- The body runs at most once.
  AtMostOnce : Effects → Effects → Type 0
  AtMostOnce w w' = (w'.calls ≡ w.calls) ⊎ (w'.calls ≡ w.calls ++ call ∷ [])

  obtained :
      (out : Result {0} Unit × Effects)
      → AtMostOnce out.1
          (after out
            λ _. obtain tool spec.gated.name args none >>= finish_call iter_errors ctx spec none).1
  unfolding AtMostOnce after obtain invoke ◌>>=◌
  obtained (err e, w) = inl refl
  obtained (ok _, w) = inr (after-calls _ _ (finish_call-IsQuiet iter_errors ctx spec none))

  proceed-native : (w : Effects) → AtMostOnce w (proceed iter_errors ctx tool spec args none w).1
  unfolding proceed ◌>>=◌ AtMostOnce
  proceed-native w =
      let announced = emit_fact ctx "stargraph.tool-call" (call_slots spec args) w in
      subst
        (λ cs.
          ((proceed iter_errors ctx tool spec args none w).1.calls ≡ cs)
          ⊎ ((proceed iter_errors ctx tool spec args none w).1.calls ≡ cs ++ call ∷ []))
        (emit_fact-IsQuiet ctx "stargraph.tool-call" (call_slots spec args) w) (obtained announced)

  abbrev Guarded : Effects → Effects → Type 0
  Guarded w w' =
      (w'.calls ≡ w.calls)
      ⊎ (IsCleared iter_errors ctx spec args × (w'.calls ≡ w.calls ++ call ∷ []))

  routed :
      (r : Result (Option Record)) (w : Effects)
      → validate_payload iter_errors "input" spec.input_schema args ≡ ok tt
      → gate ctx spec ≡ ok tt
      → replay_route ctx spec args ≡ r
      → Guarded w (after (r, w) (proceed iter_errors ctx tool spec args)).1
  unfolding after AtMostOnce gate
  routed (err e) w valid granted route = inl refl
  routed (ok (some recorded)) w valid granted route = inl (proceed-stubbed recorded w)
  routed (ok none) w valid granted route = elim (proceed-native w) [
    | inl quiet ↦ inl quiet
    | inr once ↦ inr (
      record {
        valid = validate_payload-empty iter_errors "input" spec.input_schema args valid;
        granted = gate_for-IsGranted ctx spec spec.gated.permissions refl granted;
        native = replay_route-native ctx spec args route;
      },
      once,
    )
  ]

  past_validation :
      (r : Result {0} Unit) (w : Effects)
      → validate_payload iter_errors "input" spec.input_schema args ≡ ok tt
      → gate ctx spec ≡ r
      → Guarded w
          (after
            (r, w)
            λ _. lift (replay_route ctx spec args) >>= proceed iter_errors ctx tool spec args).1
  unfolding after ◌>>=◌
  past_validation (err e) w valid granted = inl refl
  past_validation (ok _) w valid granted = routed (replay_route ctx spec args) w valid granted refl

  validated :
      (r : Result {0} Unit) (w : Effects)
      → validate_payload iter_errors "input" spec.input_schema args ≡ r
      → Guarded w
          (after
            (r, w)
            λ _. lift (gate ctx spec) >>= λ _.
              lift (replay_route ctx spec args) >>= proceed iter_errors ctx tool spec args).1
  unfolding after ◌>>=◌
  validated (err e) w valid = inl refl
  validated (ok _) w valid = past_validation (gate ctx spec) w valid refl

  run_pipeline-Guarded : (w : Effects) → Guarded w (run_pipeline iter_errors ctx tool spec args w).1
  unfolding run_pipeline ◌>>=◌
  run_pipeline-Guarded w =
      validated (validate_payload iter_errors "input" spec.input_schema args) w refl

abbrev OnlyCleared : Validator → RunContext → Tool → Record → Effects → Effects → Type 0
OnlyCleared iter_errors ctx tool args w w' =
    (w'.calls ≡ w.calls)
    ⊎ ((spec : Spec) × (tool.spec ≡ some spec)
        × IsCleared iter_errors ctx spec args
        × (w'.calls ≡ w.calls ++ (spec.gated.name, args) ∷ []))

execute_with-OnlyCleared :
    (iter_errors : Validator) (ctx : RunContext) (tool : Tool) (args : Record) (o : Option Spec)
    (w : Effects)
    → tool.spec ≡ o
    → OnlyCleared iter_errors ctx tool args w (execute_with iter_errors ctx tool args o w).1
unfolding execute_with
execute_with-OnlyCleared iter_errors ctx tool args none w e = inl refl
execute_with-OnlyCleared iter_errors ctx tool args (some spec) w e =
    elim (run_pipeline-Guarded iter_errors ctx tool spec args w) [
      | inl quiet ↦ inl quiet
      | inr (cleared, once) ↦ inr (spec, e, cleared, once)
    ]

-- `execute_tool` runs the body of the tool at most once, with the arguments that it was given, and only
-- if they pass the input schema, the permissions of the tool are granted, and the run is no replay or
-- the tool changes nothing. Otherwise, whatever the outcome, no body runs.
pub body_runs_guarded :
    (iter_errors : Validator) (ctx : RunContext) (tool : Tool) (args : Record) (w : Effects)
    → let w' = (execute_tool iter_errors tool args ctx w).1 in
      (w'.calls ≡ w.calls)
      ⊎ ((spec : Spec) × (tool.spec ≡ some spec)
          × IsCleared iter_errors ctx spec args
          × (w'.calls ≡ w.calls ++ (spec.gated.name, args) ∷ []))
unfolding execute_tool
body_runs_guarded iter_errors ctx tool args w =
    execute_with-OnlyCleared iter_errors ctx tool args tool.spec w refl
