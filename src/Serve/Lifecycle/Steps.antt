-- ===== src/Serve/Lifecycle/Steps.antt =====
-- What stands behind the guards of the server's calls: the method of the run, and what follows it.
use stargraph.Common.{
  ◌≡◌, refl, sym, ap, ◌∙◌, String, false, Option, none, some, Error, string_keys,
}
use stargraph.Graph.State.{RunState, RunSummary, Setup, cancelled, paused}
use stargraph.Graph.State.Exec.{
  Exec, Outcome, return, raise, ◌>>=◌, ◌>>◌, pure, attempt, modify, resume,
}
use stargraph.Graph.Methods.{Call, call_cancel, call_pause, call_respond, call}
use stargraph.Graph.Methods.Laws.{accepts, call_refused}
use stargraph.Serve.Lifecycle.{
  Audit, Desk, Wiring, reported, build_run_summary, on_run, persist_audit, write_status, summarize,
}

module _ {A : Type 0} where
  -- A step that leaves the run.
  abbrev KeepsRun : Exec Desk A → Type 0
  KeepsRun m = (d : Desk) → (m d).1.run ≡ d.run

module _ {A B : Type 0} where
  resume-keeps :
      (o : Outcome A) (f : A → Exec Desk B) (d : Desk)
      → ((x : A) → KeepsRun (f x))
      → (resume o f d).1.run ≡ d.run
  resume-keeps (return x) f d keeps = keeps x d
  resume-keeps (raise e) f d keeps = refl

  >>=-KeepsRun :
      (m : Exec Desk A) (f : A → Exec Desk B)
      → KeepsRun m
      → ((x : A) → KeepsRun (f x))
      → KeepsRun (m >>= f)
  unfolding ◌>>=◌
  >>=-KeepsRun m f calm keeps d = resume-keeps (m d).0 f (m d).1 keeps ∙ calm d

-- A call whose summary, if it returns one, tells the state that it leaves the run in.
abbrev Reports : Exec Desk RunSummary → Type 0
Reports m = (d : Desk) (x : RunSummary) → (m d).0 ≡ return x → x.status ≡ reported (m d).1.run.state

module _ {A : Type 0} where
  resume-Reports :
      (o : Outcome A) (f : A → Exec Desk RunSummary) (d : Desk) (x : RunSummary)
      → ((a : A) → Reports (f a))
      → (resume o f d).0 ≡ return x
      → x.status ≡ reported (resume o f d).1.run.state
  resume-Reports (return a) f d x reports h = reports a d x h
  resume-Reports (raise e) f d x reports h = absurd (cc)

  >>=-Reports :
      (m : Exec Desk A) (f : A → Exec Desk RunSummary)
      → ((a : A) → Reports (f a))
      → Reports (m >>= f)
  unfolding ◌>>=◌
  >>=-Reports m f reports d x h = resume-Reports (m d).0 f (m d).1 x reports h

attempt-KeepsRun : (e : Option Error) → KeepsRun (attempt {R = Desk} e)
unfolding attempt
attempt-KeepsRun none d = refl
attempt-KeepsRun (some e) d = refl

persist_audit-KeepsRun :
    (sink : Option (Audit → Option Error)) (event : Audit) → KeepsRun (persist_audit sink event)
unfolding persist_audit pure modify
persist_audit-KeepsRun none event d = refl
persist_audit-KeepsRun (some sink) event d =
    >>=-KeepsRun (attempt (sink event)) _ (attempt-KeepsRun (sink event)) (λ _ d. refl) d

write_status-KeepsRun :
    (store : Option (String → RunState → Option Error)) (run_id : String) (status : RunState)
    → KeepsRun (write_status store run_id status)
unfolding write_status pure modify
write_status-KeepsRun none run_id status d = refl
write_status-KeepsRun (some store) run_id status d =
    >>=-KeepsRun (attempt (store run_id status)) _ (attempt-KeepsRun (store run_id status))
      (λ _ d. refl) d

summarize-KeepsRun : (s : Setup) → KeepsRun (summarize s)
unfolding summarize
summarize-KeepsRun s d = refl

return_inj : {x y : RunSummary} → ◌≡◌ {A = Outcome RunSummary} (return x) (return y) → x ≡ y
return_inj e = cc

summarize-Reports : (s : Setup) → Reports (summarize s)
unfolding summarize build_run_summary
summarize-Reports s d x h = ap (λ z. z.status) (sym (return_inj h))

abbrev IsTail : Exec Desk RunSummary → Type 0
IsTail m = KeepsRun m × Reports m

then-IsTail :
    (m : Exec Desk (Unit {0})) (n : Exec Desk RunSummary) → KeepsRun m → IsTail n → IsTail (m >> n)
then-IsTail m n calm (keeps, reports) =
    (>>=-KeepsRun m (λ _. n) calm (λ _. keeps), >>=-Reports m (λ _. n) (λ _. reports))

summarize-IsTail : (s : Setup) → IsTail (summarize s)
summarize-IsTail s = (summarize-KeepsRun s, summarize-Reports s)

unfoldable pub event_of : String → Call → Audit
event_of run_id (call_cancel actor) = record {
  kind = "lifecycle_cancel";
  actor = actor;
  run_id = run_id;
}
event_of run_id (call_pause actor) = record {
  kind = "lifecycle_pause";
  actor = actor;
  run_id = run_id;
}
event_of run_id (call_respond response actor) = record {
  kind = "respond_orchestrated";
  actor = actor;
  run_id = run_id;
}

-- What the calls do behind the event.
unfoldable pub finish : Wiring → String → Call → Setup → Exec Desk RunSummary
finish w run_id (call_cancel actor) s = write_status w.history run_id cancelled >> summarize s
finish w run_id (call_pause actor) s = write_status w.history run_id paused >> summarize s
finish w run_id (call_respond response actor) s = summarize s

finish-IsTail : (w : Wiring) (run_id : String) (c : Call) (s : Setup) → IsTail (finish w run_id c s)
unfolding finish
finish-IsTail w run_id (call_cancel actor) s =
    then-IsTail (write_status w.history run_id cancelled) (summarize s)
      (write_status-KeepsRun w.history run_id cancelled) (summarize-IsTail s)
finish-IsTail w run_id (call_pause actor) s =
    then-IsTail (write_status w.history run_id paused) (summarize s)
      (write_status-KeepsRun w.history run_id paused) (summarize-IsTail s)
finish-IsTail w run_id (call_respond response actor) s = summarize-IsTail s

unfoldable pub tail : Wiring → String → Call → Setup → Exec Desk RunSummary
tail w run_id c s = persist_audit w.sink (event_of run_id c) >> finish w run_id c s

tail-IsTail : (w : Wiring) (run_id : String) (c : Call) (s : Setup) → IsTail (tail w run_id c s)
unfolding tail
tail-IsTail w run_id c s =
    then-IsTail (persist_audit w.sink (event_of run_id c)) (finish w run_id c s)
      (persist_audit-KeepsRun w.sink (event_of run_id c)) (finish-IsTail w run_id c s)

-- The method, and what follows it.
unfoldable pub run_method : Wiring → String → Call → Setup → Exec Desk RunSummary
run_method w run_id c s = on_run (call s c) >> tail w run_id c s

-- The run moves as its method says, and a summary tells its state.
unfoldable pub Moved : Wiring → String → Call → Setup → Desk → Outcome RunSummary × Desk → Type 0
Moved w run_id c s d out =
    (out.1.run ≡ (call s c d.run).1)
    × ((x : RunSummary) → out.0 ≡ return x → x.status ≡ reported out.1.run.state)

pub run_method-Moved :
    (w : Wiring) (run_id : String) (c : Call) (s : Setup) (d : Desk)
    → Moved w run_id c s d (run_method w run_id c s d)
unfolding run_method Moved ◌>>=◌ on_run
run_method-Moved w run_id c s d =
    let (keeps, reports) = tail-IsTail w run_id c s in
    let (o, r) = call s c d.run in
    (
      resume-keeps o (λ _. tail w run_id c s) (record d { run = r }) (λ _. keeps),
      λ x h. resume-Reports o (λ _. tail w run_id c s) (record d { run = r }) x (λ _. reports) h,
    )

-- Nothing changes, and there is no summary.
abbrev pub Refused : Desk → Outcome RunSummary × Desk → Type 0
Refused d out = (out.1 ≡ d) × ((x : RunSummary) → ¬ (out.0 ≡ return x))

pub run_method-Refused :
    (w : Wiring) (run_id : String) (c : Call) (s : Setup) (d : Desk)
    → accepts c d.run.state ≡ false
    → Refused d (run_method w run_id c s d)
unfolding run_method ◌>>=◌ on_run
run_method-Refused w run_id c s d h = rw (call_refused s c d.run h) (refl, λ x e. cc)
