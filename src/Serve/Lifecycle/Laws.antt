-- ===== src/Serve/Lifecycle/Laws.antt =====
-- Who may change a run through the server, and what an answer says.
use stargraph.Common.{
  ◌≡◌, refl, sym, ap, ◌∙◌, ◌⊎◌, inl, inr, arith, String, Bool, true, false, Option, none, some,
  Record, Result, ok, err, string_keys, ◌==◌, Bool-cases,
}
use mathlib.Core.Path.{subst}
use stargraph.Security.Capabilities.{Capabilities, has_permission}
use stargraph.Graph.State.{RunSummary, Setup}
use stargraph.Graph.State.Exec.{Exec, Outcome, return, ◌>>=◌, ◌>>◌, lift, throw, pure, resume}
use stargraph.Graph.Methods.{Call, call_cancel, call_pause, call_respond, call, is_awaiting}
use stargraph.Graph.Methods.Laws.{accepts}
use stargraph.Serve.Lifecycle.{
  Desk, Wiring, check_capability, resolve_run, reported, check_awaiting, await_test, serve_call,
}
use stargraph.Serve.Lifecycle.Steps.{
  run_method, run_method-Moved, run_method-Refused, Moved, tail, finish, event_of, Refused,
}

-- The capability that a call needs, and the kind of event that tells of it.
abbrev pub required : Call → String
required (call_cancel _) = "runs:cancel"
required (call_pause _) = "runs:pause"
required (call_respond _ _) = "runs:respond"

-- A server without capabilities asks for none.
abbrev pub IsPermitted : Option Capabilities → String → Type 0
IsPermitted none capability = Unit
IsPermitted (some caps) capability = has_permission caps capability ≡ true

check_capability-IsPermitted :
    (caps : Option Capabilities) (capability actor : String)
    → check_capability caps capability actor ≡ ok tt
    → IsPermitted caps capability
unfolding check_capability
check_capability-IsPermitted none capability actor h = tt
check_capability-IsPermitted (some caps) capability actor h = ground arith

resolve_run-given :
    (run_id : String) (given : Option Setup) (s : Setup)
    → resolve_run run_id given none ≡ ok s
    → (given ≡ some s) × (s.run_id ≡ run_id)
unfolding resolve_run
resolve_run-given run_id none s h = cc
resolve_run-given run_id (some g) s h = elim (Bool-cases (g.run_id == run_id)) [
  | inl same ↦
      let here : g ≡ s = ground arith in
      (ap some here, ap (λ z. z.run_id) (sym here) ∙ (string_keys.same_iff g.run_id run_id).0 same)
  | inr other ↦ absurd (ground arith)
]

guard :
    (r1 : Result {0} Unit) (r2 : Result Setup) (k : Setup → Exec Desk RunSummary) (d : Desk)
    → let out = (lift r1 >> (lift r2 >>= k)) d in
      Refused d out ⊎ ((r1 ≡ ok tt) × (s : Setup) × (r2 ≡ ok s) × (out ≡ k s d))
unfolding ◌>>=◌ lift
guard (err e) r2 k d = inl (refl, λ x h. cc)
guard (ok _) (err e) k d = inl (refl, λ x h. cc)
guard (ok _) (ok s) k d = inr (refl, s, refl, refl)

-- The same calls, by the method that they end in.
let_through : Wiring → String → Call → Setup → Exec Desk RunSummary
unfolding check_awaiting
let_through w run_id (call_cancel actor) s = run_method w run_id (call_cancel actor) s
let_through w run_id (call_pause actor) s = run_method w run_id (call_pause actor) s
let_through w run_id (call_respond response actor) s =
    check_awaiting >> run_method w run_id (call_respond response actor) s

serve_call-let_through :
    (w : Wiring) (caps : Option Capabilities) (given : Option Setup) (run_id : String) (c : Call)
    (d : Desk)
    → (actor : String) × (serve_call w caps given run_id c d
        ≡ (lift (check_capability caps (required c) actor)
              >> (lift (resolve_run run_id given none) >>= let_through w run_id c))
            d)
unfolding serve_call let_through run_method tail finish event_of call
serve_call-let_through w caps given run_id (call_cancel actor) d = (actor, refl)
serve_call-let_through w caps given run_id (call_pause actor) d = (actor, refl)
serve_call-let_through w caps given run_id (call_respond response actor) d = (actor, refl)

module _ (w : Wiring) (run_id : String) (response : Record) (actor : String) (s : Setup)
    (d : Desk) where
  abbrev answer : Call
  answer = call_respond response actor

  tested : Bool → Outcome RunSummary × Desk
  tested b = resume (await_test b d).0 (λ _. run_method w run_id answer s) (await_test b d).1

  tested-passed : tested true ≡ run_method w run_id answer s d
  unfolding tested await_test pure
  tested-passed = refl

  tested-Refused : Refused d (tested false)
  unfolding tested await_test throw
  tested-Refused = (refl, λ x h. cc)

  respond-accepts :
      Refused d (let_through w run_id answer s d)
      ⊎ ((accepts answer d.run.state ≡ true)
          × Moved w run_id answer s d (let_through w run_id answer s d))
  unfolding let_through check_awaiting ◌>>=◌ tested
  respond-accepts = elim (Bool-cases (is_awaiting d.run.state)) [
    | inl good ↦ inr (
      good,
      subst (Moved w run_id answer s d) (sym (ap tested good ∙ tested-passed))
          (run_method-Moved w run_id answer s d),
    )
    | inr bad ↦ inl (subst (Refused d) (sym (ap tested bad)) tested-Refused)
  ]

run_method-accepts :
    (w : Wiring) (run_id : String) (c : Call) (s : Setup) (d : Desk)
    → Refused d (run_method w run_id c s d)
      ⊎ ((accepts c d.run.state ≡ true) × Moved w run_id c s d (run_method w run_id c s d))
run_method-accepts w run_id c s d = elim (Bool-cases (accepts c d.run.state)) [
  | inl good ↦ inr (good, run_method-Moved w run_id c s d)
  | inr bad ↦ inl (run_method-Refused w run_id c s d bad)
]

let_through-accepts :
    (w : Wiring) (run_id : String) (c : Call) (s : Setup) (d : Desk)
    → Refused d (let_through w run_id c s d)
      ⊎ ((accepts c d.run.state ≡ true) × Moved w run_id c s d (let_through w run_id c s d))
unfolding let_through
let_through-accepts w run_id (call_cancel actor) s d =
    run_method-accepts w run_id (call_cancel actor) s d
let_through-accepts w run_id (call_pause actor) s d =
    run_method-accepts w run_id (call_pause actor) s d
let_through-accepts w run_id (call_respond response actor) s d =
    respond-accepts w run_id response actor s d

-- A call that was let through: the actor may make it, the run is the one that was named, its state
-- admits the call, and it moves as the run's method says; a summary tells the state it is left in.
pub record LetThrough (w : Wiring) (caps : Option Capabilities) (given : Option Setup)
    (run_id : String) (c : Call) (d : Desk) (out : Outcome RunSummary × Desk) : Type 0 where
  pub permitted : IsPermitted caps (required c)
  pub setup : Setup
  pub live : given ≡ some setup
  pub named : setup.run_id ≡ run_id
  pub admitted : accepts c d.run.state ≡ true
  pub moved : out.1.run ≡ (call setup c d.run).1
  pub told : (x : RunSummary) → out.0 ≡ return x → x.status ≡ reported out.1.run.state

-- Whoever cancels, pauses or answers a run through the server either changes nothing and gets no summary, or
-- holds the capability of the call, where the server has capabilities, names the run that was
-- handed in, and finds it in a state that admits the call: then the run moves as its method says,
-- and a summary, if one is returned, tells its state.
pub serve_call_guarded :
    (w : Wiring) (caps : Option Capabilities) (given : Option Setup) (run_id : String) (c : Call)
    (d : Desk)
    → let out = serve_call w caps given run_id c d in
      ((out.1 ≡ d) × ((x : RunSummary) → ¬ (out.0 ≡ return x)))
      ⊎ LetThrough w caps given run_id c d out
unfolding Moved
serve_call_guarded w caps given run_id c d =
    let (actor, same) = serve_call-let_through w caps given run_id c d in
    elim (guard (check_capability caps (required c) actor) (resolve_run run_id given none)
      (let_through w run_id c) d) [
        | inl refused ↦ inl (subst (Refused d) (sym same) refused)
        | inr (granted, s, found, went) ↦
            let (live, named) = resolve_run-given run_id given s found in
            elim (let_through-accepts w run_id c s d) [
              | inl refused ↦ inl (subst (Refused d) (sym (same ∙ went)) refused)
              | inr (admitted, moved) ↦
                  let (run_moved, told) = subst (Moved w run_id c s d) (sym (same ∙ went)) moved in
                  inr (record {
                    permitted = check_capability-IsPermitted caps (required c) actor granted;
                    setup = s;
                    live = live;
                    named = named;
                    admitted = admitted;
                    moved = run_moved;
                    told = told;
                  })
            ]
      ]
