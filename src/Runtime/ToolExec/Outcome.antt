-- ===== src/Runtime/ToolExec/Outcome.antt =====
-- What a call of `execute_tool` that succeeds returns, and what it leaves on record.
use mathlib.Core.Path.{subst}
use mathlib.Core.List.{append-nil, append_assoc}
use Prim.Native.String.{String}
use stargraph.Common.{
  ◌≡◌, refl, ◌⊎◌, inl, inr, ap, sym, ◌∙◌, Option, none, some, List, [], ◌∷◌, ◌++◌, str, int, Record,
  Result, ok, err, Error, length, string_keys,
}
use stargraph.Common.Dict.{lookup}
use stargraph.Runtime.ToolExec.{
  Validator, validate_payload, gate, replay_route, RunContext, Tool, Spec, Effects, Exec,
  ToolResult, ToolFact, after, ◌>>=◌, lift, pure, emit_fact, fact_of, asserted, assert_with, obtain,
  invoke, report_tokens, finish_call, proceed, run_pipeline, execute_with, execute_tool,
  extract_tokens, sanitize_payload, call_slots, result_slots, total_of, expect_dict, is_stub,
}
use stargraph.Runtime.ToolExec.Calls.{validate_payload-empty}
use stargraph.Runtime.ToolExec.Clean.{CleanPayload, sanitize_payload-CleanPayload}

abbrev pub logged_by : ToolFact → Option (ToolFact → Option Error) → List ToolFact
logged_by fact none = []
logged_by fact (some adapter) = fact ∷ []

-- The fact that an adapter is handed, where there is one.
abbrev pub logged : RunContext → String → Record → List ToolFact
logged ctx template slots = logged_by (fact_of ctx template slots) ctx.fathom

abbrev pub token_facts : RunContext → String → Option Record → List ToolFact
unfolding total_of lookup
token_facts ctx name none = []
token_facts ctx name (some tokens) =
    logged ctx "stargraph.tokens-used"
      (("tool_id", str name) ∷ ("total", total_of (lookup "total" tokens)) ∷ [])

-- The provenance of a call: that it was made, what it gave, what it cost.
abbrev pub trail : RunContext → Spec → Record → ToolResult → List ToolFact
trail ctx spec args result =
    logged ctx "stargraph.tool-call"
      (("tool_id", str spec.gated.name) ∷ ("args_count", int (length args)) ∷ [])
    ++ (logged ctx "stargraph.tool-result"
          (("tool_id", str spec.gated.name) ∷ ("fields", int (length result.output)) ∷ [])
        ++ token_facts ctx spec.gated.name result.tokens)

-- Where the payload comes from: the cassette, or the body.
abbrev pub IsSource : Tool → Record → Option Record → Record → Type 0
IsSource tool args route payload =
    (route ≡ some payload) ⊎ ((route ≡ none) × (expect_dict (tool.body args) ≡ ok payload))

module _ {A B : Type 0} where
  -- A sequence that succeeds has run both its parts.
  after-eq-ok :
      (out : Result A × Effects) (next : A → Exec B) {y : B} {w' : Effects}
      → after out next ≡ (ok y, w')
      → (x : A) × (w : Effects) × (out ≡ (ok x, w)) × (next x w ≡ (ok y, w'))
  unfolding after
  after-eq-ok (ok x, w) next e = (x, w, refl, e)
  after-eq-ok (err e', w) next e = absurd (cc)

  >>=-runs :
      (first : Exec A) (next : A → Exec B) (w : Effects) {y : B} {w' : Effects}
      → (first >>= next) w ≡ (ok y, w')
      → (x : A) × (w1 : Effects) × (first w ≡ (ok x, w1)) × (next x w1 ≡ (ok y, w'))
  unfolding ◌>>=◌
  >>=-runs first next w e = after-eq-ok (first w) next e

asserted-logged :
    (fact : ToolFact) (answer : Option Error) (w : Effects) {u : Unit {0}} {w' : Effects}
    → asserted fact answer w ≡ (ok u, w')
    → w'.facts ≡ w.facts ++ fact ∷ []
unfolding asserted
asserted-logged fact none w e = ap (λ z. z.1.facts) (sym e)
asserted-logged fact (some x) w e = absurd (cc)

assert_with-logged :
    (fact : ToolFact) (o : Option (ToolFact → Option Error)) (w : Effects) {u : Unit {0}}
    {w' : Effects}
    → assert_with fact o w ≡ (ok u, w')
    → w'.facts ≡ w.facts ++ logged_by fact o
unfolding assert_with
assert_with-logged fact none w e = ap (λ z. z.1.facts) (sym e) ∙ sym (append-nil w.facts)
assert_with-logged fact (some adapter) w e = asserted-logged fact (adapter fact) w e

ok_inj :
    {A : Type 0} {x y : A} {w w' : Effects}
    → ◌≡◌ {A = Result A × Effects} (ok x, w) (ok y, w')
    → x ≡ y
ok_inj e = cc

emit_fact-logged :
    (ctx : RunContext) (template : String) (slots : Record) (w : Effects) {u : Unit {0}}
    {w' : Effects}
    → emit_fact ctx template slots w ≡ (ok u, w')
    → w'.facts ≡ w.facts ++ logged ctx template slots
unfolding emit_fact
emit_fact-logged ctx template slots w e =
    assert_with-logged (fact_of ctx template slots) ctx.fathom w e

report_tokens-logged :
    (ctx : RunContext) (name : String) (tokens : Option Record) (w : Effects) {u : Unit {0}}
    {w' : Effects}
    → report_tokens ctx name tokens w ≡ (ok u, w')
    → w'.facts ≡ w.facts ++ token_facts ctx name tokens
unfolding report_tokens
report_tokens-logged ctx name none w e = ap (λ z. z.1.facts) (sym e) ∙ sym (append-nil w.facts)
report_tokens-logged ctx name (some tokens) w e = emit_fact-logged ctx _ _ _ e

obtain-IsSource :
    (tool : Tool) (name : String) (args : Record) (route : Option Record) (w : Effects)
    {payload : Record} {w' : Effects}
    → obtain tool name args route w ≡ (ok payload, w')
    → IsSource tool args route payload × (w'.facts ≡ w.facts)
unfolding obtain invoke
obtain-IsSource tool name args (some recorded) w e = (inl (ap some cc), ap (λ z. z.1.facts) (sym e))
obtain-IsSource tool name args none w e = (inr (refl, ap (λ z. z.0) e), ap (λ z. z.1.facts) (sym e))

-- A call that succeeds: its payload was obtained, valid, and sanitized, and every step was put on record.
pub record Succeeded (iter_errors : Validator) (ctx : RunContext) (tool : Tool) (args : Record)
    (w w' : Effects) (result : ToolResult) : Type 0 where
  pub spec : Spec
  pub known : tool.spec ≡ some spec
  pub valid : iter_errors spec.input_schema args ≡ []
  pub route : Option Record
  pub routed : replay_route ctx spec args ≡ ok route
  pub payload : Record
  pub source : IsSource tool args route payload
  pub payload_valid : iter_errors spec.output_schema payload ≡ []
  pub output_is : result.output ≡ sanitize_payload payload
  pub clean : CleanPayload result.output
  pub replayed_is : result.replayed ≡ is_stub route
  pub tokens_are : result.tokens ≡ extract_tokens payload
  pub on_record : w'.facts ≡ w.facts ++ trail ctx spec args result

module _ (iter_errors : Validator) (ctx : RunContext) (tool : Tool) (spec : Spec)
    (args : Record) where
  -- Steps 6 to 9.
  abbrev Delivered : Option Record → Record → Effects → ToolResult → Effects → Type 0
  Delivered route payload w result w' =
      (iter_errors spec.output_schema payload ≡ [])
      × (result.output ≡ sanitize_payload payload)
      × (result.replayed ≡ is_stub route)
      × (result.tokens ≡ extract_tokens payload)
      × (w'.facts
          ≡ (w.facts ++ logged ctx "stargraph.tool-result" (result_slots spec result.output))
            ++ token_facts ctx spec.gated.name result.tokens)

  finish_call-Delivered :
      (route : Option Record) (payload : Record) (w : Effects) (result : ToolResult) (w' : Effects)
      → finish_call iter_errors ctx spec route payload w ≡ (ok result, w')
      → Delivered route payload w result w'
  unfolding finish_call
  finish_call-Delivered route payload w result w' e =
      let output = sanitize_payload payload in
      let tokens = extract_tokens payload in
      let made : ToolResult = record {
        output = output;
        replayed = is_stub route;
        tokens = tokens;
      } in
      let last : Unit {0} → Exec ToolResult = λ _. pure made in
      let cost : Unit {0} → Exec ToolResult =
        λ _. report_tokens ctx spec.gated.name tokens >>= last in
      let tell : Unit {0} → Exec ToolResult =
        λ _. emit_fact ctx "stargraph.tool-result" (result_slots spec output) >>= cost in
      let check = validate_payload iter_errors "output" spec.output_schema payload in
      let (_, w1, checked, rest1) = >>=-runs (lift check) tell w e in
      let (_, w2, told, rest2) =
        >>=-runs (emit_fact ctx "stargraph.tool-result" (result_slots spec output)) cost w1 rest1 in
      let (_, w3, reported, rest3) =
        >>=-runs (report_tokens ctx spec.gated.name tokens) last w2 rest2 in
      let told_facts =
        emit_fact-logged ctx "stargraph.tool-result" (result_slots spec output) w1 told in
      let cost_facts = report_tokens-logged ctx spec.gated.name tokens w2 reported in
      let here : Delivered route payload w made w' = (
        validate_payload-empty iter_errors "output" spec.output_schema payload
            (ap (λ z. z.0) checked),
        refl,
        refl,
        refl,
        ap (λ z. z.1.facts) (sym rest3)
            ∙ (cost_facts
                ∙ ap (λ fs. fs ++ token_facts ctx spec.gated.name tokens)
                    (told_facts
                      ∙ ap
                          (λ z.
                            z.1.facts
                            ++ logged ctx "stargraph.tool-result" (result_slots spec output))
                          (sym checked))),
      ) in
      subst (λ z. Delivered route payload w z w') (ok_inj rest3) here

  -- Steps 4 to 9.
  abbrev Proceeded : Option Record → Effects → ToolResult → Effects → Type 0
  Proceeded route w result w' =
      (payload : Record) × IsSource tool args route payload
      × (iter_errors spec.output_schema payload ≡ [])
      × (result.output ≡ sanitize_payload payload)
      × (result.replayed ≡ is_stub route)
      × (result.tokens ≡ extract_tokens payload)
      × (w'.facts ≡ w.facts ++ trail ctx spec args result)

  proceed-Proceeded :
      (route : Option Record) (w : Effects) (result : ToolResult) (w' : Effects)
      → proceed iter_errors ctx tool spec args route w ≡ (ok result, w')
      → Proceeded route w result w'
  unfolding proceed
  proceed-Proceeded route w result w' e =
      let rest : Record → Exec ToolResult = finish_call iter_errors ctx spec route in
      let (_, w1, told, rest1) =
        >>=-runs (emit_fact ctx "stargraph.tool-call" (call_slots spec args))
          (λ _. obtain tool spec.gated.name args route >>= rest) w e in
      let (payload, w2, obtained, rest2) =
        >>=-runs (obtain tool spec.gated.name args route) rest w1 rest1 in
      let (source, kept) = obtain-IsSource tool spec.gated.name args route w1 obtained in
      let called = emit_fact-logged ctx "stargraph.tool-call" (call_slots spec args) w told in
      let (valid, output_is, replayed_is, tokens_are, facts_are) =
        finish_call-Delivered route payload w2 result w' rest2 in
      let a = logged ctx "stargraph.tool-call" (call_slots spec args) in
      let b = logged ctx "stargraph.tool-result" (result_slots spec result.output) in
      let c = token_facts ctx spec.gated.name result.tokens in
      let facts : w'.facts ≡ w.facts ++ (a ++ (b ++ c)) =
        facts_are
        ∙ (ap (λ fs. (fs ++ b) ++ c) (kept ∙ called)
            ∙ (append_assoc (w.facts ++ a) b c ∙ append_assoc w.facts a (b ++ c))) in
      (payload, source, valid, output_is, replayed_is, tokens_are, facts)

  run_pipeline-Succeeded :
      (w : Effects) (result : ToolResult) (w' : Effects)
      → tool.spec ≡ some spec
      → run_pipeline iter_errors ctx tool spec args w ≡ (ok result, w')
      → Succeeded iter_errors ctx tool args w w' result
  unfolding run_pipeline
  run_pipeline-Succeeded w result w' known e =
      let check = validate_payload iter_errors "input" spec.input_schema args in
      let to_proceed : Option Record → Exec ToolResult = proceed iter_errors ctx tool spec args in
      let to_route : Unit {0} → Exec ToolResult =
        λ _. lift (replay_route ctx spec args) >>= to_proceed in
      let (_, w1, checked, rest1) =
        >>=-runs (lift check) (λ _. lift (gate ctx spec) >>= to_route) w e in
      let (_, w2, granted, rest2) = >>=-runs (lift (gate ctx spec)) to_route w1 rest1 in
      let (route, w3, routed, rest3) =
        >>=-runs (lift (replay_route ctx spec args)) to_proceed w2 rest2 in
      let (payload, source, payload_valid, output_is, replayed_is, tokens_are, facts_are) =
        proceed-Proceeded route w3 result w' rest3 in
      let same : w3 ≡ w =
        ap (λ z. z.1) (sym routed) ∙ (ap (λ z. z.1) (sym granted) ∙ ap (λ z. z.1) (sym checked)) in
      record {
        spec = spec;
        known = known;
        valid =
            validate_payload-empty iter_errors "input" spec.input_schema args
              (ap (λ z. z.0) checked);
        route = route;
        routed = ap (λ z. z.0) routed;
        payload = payload;
        source = source;
        payload_valid = payload_valid;
        output_is = output_is;
        clean = subst CleanPayload (sym output_is) (sanitize_payload-CleanPayload payload);
        replayed_is = replayed_is;
        tokens_are = tokens_are;
        on_record = facts_are ∙ ap (λ z. z.facts ++ trail ctx spec args result) same;
      }

execute_with-Succeeded :
    (iter_errors : Validator) (ctx : RunContext) (tool : Tool) (args : Record) (o : Option Spec)
    (w : Effects) (result : ToolResult) (w' : Effects)
    → tool.spec ≡ o
    → execute_with iter_errors ctx tool args o w ≡ (ok result, w')
    → Succeeded iter_errors ctx tool args w w' result
unfolding execute_with
execute_with-Succeeded iter_errors ctx tool args none w result w' known e = absurd (cc)
execute_with-Succeeded iter_errors ctx tool args (some spec) w result w' known e =
    run_pipeline-Succeeded iter_errors ctx tool spec args w result w' known e

-- If `execute_tool` returns a result, its output is the sanitized form of a payload that passes the
-- output schema and comes from the cassette (and then it says so) or else from the body; no string
-- at any depth under the keys of the output holds `<`, `>`, `"`, `'` or a control character other
-- than tab, line feed and carriage return, which pass; the
-- tokens are those of the payload; and with an adapter the facts of the call, of the result and
-- of its tokens are asserted, in this order and no others.
pub execute_tool-Succeeded :
    (iter_errors : Validator) (tool : Tool) (args : Record) (ctx : RunContext) (w : Effects)
    (result : ToolResult) (w' : Effects)
    → execute_tool iter_errors tool args ctx w ≡ (ok result, w')
    → Succeeded iter_errors ctx tool args w w' result
unfolding execute_tool
execute_tool-Succeeded iter_errors tool args ctx w result w' e =
    execute_with-Succeeded iter_errors ctx tool args tool.spec w result w' refl e
