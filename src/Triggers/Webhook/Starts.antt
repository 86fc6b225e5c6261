-- ===== src/Triggers/Webhook/Starts.antt =====
-- When `_handle_request` touches the scheduler.
use stargraph.Common.{
  ℕ, ◌≡◌, refl, ◌⊎◌, inl, inr, String, Bool, true, false, Option, none, some, Record, arith, Result,
  ok, err, string_keys,
}
use stargraph.Common.Dict.{lookup, insert}
use stargraph.Serve.Scheduler.{Scheduler, enqueue}
use stargraph.Triggers.Webhook.{
  ℤ, Triple, triple_keys, NonceLru, check_and_record, WebhookSpec, Request, WebhookTrigger, Env,
  idempotency_key, Checked, refused, forged, crashed, authentic, check_request, Reply, accepted,
  Failure, enqueue_answer, judge_nonce, answer_request, call_enqueue, extract_params, emit_audit,
  start_run, admit, check_nonce, handle_request,
}
use stargraph.Triggers.Webhook.Authentic.{IsAuthentic, check_request-IsAuthentic}

-- A run handed to the scheduler: who signed for it, that its nonce was new, and the call of `enqueue`.
pub record Started (env : Env) (now : ℕ) (spec : WebhookSpec) (r : Request) (t t' : WebhookTrigger)
    (reply : Reply) : Type 0 where
  pub signature : String
  pub timestamp : ℤ
  pub checked : check_request env now spec r ≡ authentic signature timestamp
  pub genuine : IsAuthentic env now spec r signature timestamp
  pub cache : NonceLru Triple
  pub cached : lookup spec.trigger_id t.nonce_caches ≡ some cache
  pub new : (check_and_record (spec.trigger_id, signature, timestamp) cache).0 ≡ true
  pub before : Scheduler
  pub after : Scheduler
  pub run_id : String
  pub future : ℕ
  pub params : Record
  pub had : t.scheduler ≡ some before
  pub has : t'.scheduler ≡ some after
  pub key_is : reply ≡ accepted (idempotency_key env spec.trigger_id r.body)
  pub extracted : extract_params env spec r ≡ inr params
  pub enqueued :
      enqueue env.scheduling spec.graph_id params
        (some (idempotency_key env spec.trigger_id r.body))
        "manual"
        now
        before
      ≡ ok ((run_id, future), after)

module _ (env : Env) (now : ℕ) (spec : WebhookSpec) (r : Request) where
  abbrev run_key : String
  run_key = idempotency_key env spec.trigger_id r.body

  -- An answer that is no 200, and a scheduler that is left alone.
  abbrev Inert : WebhookTrigger → Reply × WebhookTrigger → Type 0
  Inert t out = (out.1.scheduler ≡ t.scheduler) × ((k : String) → ¬ (out.0 ≡ accepted k))

  abbrev Enqueued : WebhookTrigger → Record → Reply × WebhookTrigger → Type 0
  Enqueued t params out =
      (s s' : Scheduler) × (id : String) × (n : ℕ) × (t.scheduler ≡ some s)
      × (out.1.scheduler ≡ some s')
      × (out.0 ≡ accepted run_key)
      × (enqueue env.scheduling spec.graph_id params (some run_key) "manual" now s
          ≡ ok ((id, n), s'))

  enqueue_answer-Enqueued :
      (params : Record) (s : Scheduler) (t : WebhookTrigger)
      (result : Result ((String × ℕ) × Scheduler))
      → enqueue env.scheduling spec.graph_id params (some run_key) "manual" now s ≡ result
      → t.scheduler ≡ some s
      → Inert t (enqueue_answer run_key result t)
        ⊎ Enqueued t params (enqueue_answer run_key result t)
  unfolding enqueue_answer
  enqueue_answer-Enqueued params s t (err e) called had = inl (refl, λ k e. cc)
  enqueue_answer-Enqueued params s t (ok ((id, n), s')) called had =
      inr (s, s', id, n, had, refl, refl, called)

  start_run-Enqueued :
      (params : Record) (o : Option Scheduler) (t : WebhookTrigger)
      → t.scheduler ≡ o
      → let out = start_run env now spec r.body params o t in Inert t out ⊎ Enqueued t params out
  unfolding start_run call_enqueue
  start_run-Enqueued params none t had = inl (refl, λ k e. cc)
  start_run-Enqueued params (some s) t had =
      enqueue_answer-Enqueued params s t
        (enqueue env.scheduling spec.graph_id params (some run_key) "manual" now s) refl had

  admit-Enqueued :
      (f : Failure ⊎ Record) (t : WebhookTrigger)
      → let out = admit env now spec r f t in
        Inert t out ⊎ ((params : Record) × (f ≡ inr params) × Enqueued t params out)
  unfolding admit
  admit-Enqueued (inl failure) t = inl (refl, λ k e. cc)
  admit-Enqueued (inr params) t = elim (start_run-Enqueued params t.scheduler t refl) [
    | inl inert ↦ inl inert
    | inr started ↦ inr (params, refl, started)
  ]

  judge_nonce-Enqueued :
      (first : Bool) (t : WebhookTrigger)
      → let out = judge_nonce env now spec r first t in
        Inert t out
        ⊎ ((params : Record) × (first ≡ true)
            × (extract_params env spec r ≡ inr params)
            × Enqueued t params out)
  unfolding judge_nonce
  judge_nonce-Enqueued false t = inl (refl, λ k e. cc)
  judge_nonce-Enqueued true t = elim (admit-Enqueued (extract_params env spec r) t) [
    | inl inert ↦ inl inert
    | inr (params, extracted, started) ↦ inr (params, refl, extracted, started)
  ]

  -- The whole step, from a signature and a time.
  abbrev Accepts : WebhookTrigger → Reply × WebhookTrigger → String → ℤ → Type 0
  Accepts t out signature timestamp =
      (cache : NonceLru Triple) × (params : Record) × (lookup spec.trigger_id t.nonce_caches
        ≡ some cache)
      × ((check_and_record (spec.trigger_id, signature, timestamp) cache).0 ≡ true)
      × (extract_params env spec r ≡ inr params)
      × Enqueued t params out

  check_nonce-Accepts :
      (signature : String) (timestamp : ℤ) (o : Option (NonceLru Triple)) (t : WebhookTrigger)
      → lookup spec.trigger_id t.nonce_caches ≡ o
      → let out = check_nonce env now spec r (spec.trigger_id, signature, timestamp) o t in
        Inert t out ⊎ Accepts t out signature timestamp
  unfolding check_nonce
  check_nonce-Accepts signature timestamp none t cached = inl (refl, λ k e. cc)
  check_nonce-Accepts signature timestamp (some cache) t cached =
      let key : Triple = (spec.trigger_id, signature, timestamp) in
      let (first, cache') = check_and_record key cache in
      elim (judge_nonce-Enqueued first
        (record t { nonce_caches = insert spec.trigger_id cache' t.nonce_caches })) [
          | inl inert ↦ inl inert
          | inr (params, new, extracted, started) ↦
              inr (cache, params, cached, new, extracted, started)
        ]

  answer_request-Started :
      (c : Checked) (t : WebhookTrigger)
      → check_request env now spec r ≡ c
      → let out = answer_request env now spec r c t in
        Inert t out ⊎ Started env now spec r t out.1 out.0
  unfolding answer_request emit_audit
  answer_request-Started (refused code detail) t checked = inl (refl, λ k e. cc)
  answer_request-Started (crashed e) t checked = inl (refl, λ k e. cc)
  answer_request-Started (forged timestamp) t checked = inl (ground arith, λ k e. cc)
  answer_request-Started (authentic signature timestamp) t checked =
      elim (check_nonce-Accepts signature timestamp (lookup spec.trigger_id t.nonce_caches) t
        refl) [
          | inl inert ↦ inl inert
          | inr (cache, params, cached, new, extracted, (s, s', id, n, had, has, said, called)) ↦
              inr (record {
                signature = signature;
                timestamp = timestamp;
                checked = checked;
                genuine = check_request-IsAuthentic env now spec r signature timestamp checked;
                cache = cache;
                cached = cached;
                new = new;
                before = s;
                after = s';
                run_id = id;
                future = n;
                params = params;
                had = had;
                has = has;
                key_is = said;
                extracted = extracted;
                enqueued = called;
              })
        ]

-- A request changes the trigger's scheduler only if it carries a digest that one of the spec's
-- secrets made of its body and of a time in the window, and the cache of the trigger did not hold that
-- digest and time: then the run is enqueued once, under the key that the body gives, and the answer
-- is 200. In every other case the scheduler stays and the answer is no 200.
pub starts_only_signed :
    (env : Env) (now : ℕ) (spec : WebhookSpec) (r : Request) (t : WebhookTrigger)
    → let (reply, t') = handle_request env now spec r t in
      ((t'.scheduler ≡ t.scheduler) × ((k : String) → ¬ (reply ≡ accepted k)))
      ⊎ Started env now spec r t t' reply
unfolding handle_request
starts_only_signed env now spec r t =
    answer_request-Started env now spec r (check_request env now spec r) t refl
