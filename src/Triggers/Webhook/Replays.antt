-- ===== src/Triggers/Webhook/Replays.antt =====
-- A request that was accepted is refused when it comes again, as long as the cache remembers it.
use stargraph.Common.{
  ℕ, suc, ◌+◌, ◌<◌, ◌≡◌, refl, ◌⊎◌, inl, inr, String, Bool, true, false, Option, none, some, List,
  [], ◌∷◌, Record, arith, Bool-cases, string_keys, ap, ◌∙◌, sym, length, ◌==◌, Result, ok, err,
}
use mathlib.Core.Path.{subst}
use stargraph.Common.Dict.{Dict, lookup, insert, lookup-insert}
use stargraph.Serve.Scheduler.{Scheduler}
use stargraph.Triggers.Webhook.{
  Triple, triple_keys, NonceLru, check_and_record, WebhookSpec, Request, WebhookTrigger, Env,
  idempotency_key, Checked, refused, forged, crashed, authentic, check_request, Reply, accepted,
  Failure, extract_params, emit_audit, start_run, admit, check_nonce, handle_request, Call,
  handle_all, header, judge_nonce, answer_request, enqueue_answer, call_enqueue,
}
use stargraph.Triggers.Webhook.Nonces.{
  IsYoung, check_and_record-IsYoung, check_and_record-youngest, check_and_record-refuses,
  check_and_record-capacity,
}
use stargraph.Triggers.Webhook.Authentic.{timestamp_of}
use stargraph.Triggers.Webhook.Starts.{Started, starts_only_signed}

some_inj {ℓ} : {A : Type ℓ} {x y : A} → some x ≡ some y → x ≡ y
some_inj e = cc

abbrev Caches : Type 0
Caches = Dict String (NonceLru Triple)

-- The cache of a trigger, of that capacity, holds the key with at most so many keys behind it.
abbrev Remembers : String → Triple → ℕ → ℕ → Caches → Type 0
Remembers id key room n caches =
    (c : NonceLru Triple) × (lookup id caches ≡ some c) × (c.capacity ≡ room) × IsYoung key n c.keys

older :
    (id : String) (key : Triple) (room n : ℕ) (caches : Caches)
    → Remembers id key room n caches
    → Remembers id key room (suc n) caches
older id key room n caches (c, at, size, (m, found, below)) = (c, at, size, (m, found, omega arith))

-- A check of any key against any cache.
check-Remembers :
    (id other : String) (key new : Triple) (room n : ℕ) (caches : Caches) (c : NonceLru Triple)
    → Remembers id key room n caches
    → suc n < room
    → lookup other caches ≡ some c
    → Remembers id key room (suc n) (insert other (check_and_record new c).1 caches)
check-Remembers id other key new room n caches c (c', at, size, young) more there =
    elim (Bool-cases (other == id)) [
      | inl same ↦
          let e = (string_keys.same_iff other id).0 same in
          let here : c ≡ c' = cc in
          let wide : c.capacity ≡ room = ap (λ z. z.capacity) here ∙ size in
          (
            (check_and_record new c).1,
            ground (arith, lookup-insert other id (check_and_record new c).1 caches),
            check_and_record-capacity new c ∙ wide,
            check_and_record-IsYoung key new n c
                (subst (λ z. IsYoung key n z.keys) (sym here) young) (omega arith),
          )
      | inr apart ↦
          let (m, found, below) = young in
          (
            c',
            ground (arith, lookup-insert other id (check_and_record new c).1 caches),
            size,
            (m, found, omega arith),
          )
    ]

module _ (env : Env) (now : ℕ) (spec : WebhookSpec) (r : Request) where
  enqueue_answer-caches :
      (key : String) (result : Result ((String × ℕ) × Scheduler)) (t : WebhookTrigger)
      → (enqueue_answer key result t).1.nonce_caches ≡ t.nonce_caches
  unfolding enqueue_answer
  enqueue_answer-caches key (ok (_, s)) t = refl
  enqueue_answer-caches key (err e) t = refl

  start_run-caches :
      (params : Record) (o : Option Scheduler) (t : WebhookTrigger)
      → (start_run env now spec r.body params o t).1.nonce_caches ≡ t.nonce_caches
  unfolding start_run
  start_run-caches params none t = refl
  start_run-caches params (some s) t =
      enqueue_answer-caches (idempotency_key env spec.trigger_id r.body)
        (call_enqueue env now spec params (idempotency_key env spec.trigger_id r.body) s) t

  admit-caches :
      (f : Failure ⊎ Record) (t : WebhookTrigger)
      → (admit env now spec r f t).1.nonce_caches ≡ t.nonce_caches
  unfolding admit
  admit-caches (inl failure) t = refl
  admit-caches (inr params) t = start_run-caches params t.scheduler t

  judge_nonce-caches :
      (first : Bool) (t : WebhookTrigger)
      → (judge_nonce env now spec r first t).1.nonce_caches ≡ t.nonce_caches
  unfolding judge_nonce
  judge_nonce-caches true t = admit-caches (extract_params env spec r) t
  judge_nonce-caches false t = refl

  -- One more request: whatever it is, the key gets older by one at most.
  answer_request-Remembers :
      (id : String) (key : Triple) (room n : ℕ) (c : Checked) (t : WebhookTrigger)
      → Remembers id key room n t.nonce_caches
      → suc n < room
      → Remembers id key room (suc n) (answer_request env now spec r c t).1.nonce_caches
  unfolding answer_request emit_audit check_nonce
  answer_request-Remembers id key room n (refused code detail) t h more =
      older id key room n t.nonce_caches h
  answer_request-Remembers id key room n (crashed e) t h more = older id key room n t.nonce_caches h
  answer_request-Remembers id key room n (forged timestamp) t h more =
      subst (Remembers id key room (suc n)) (ground arith) (older id key room n t.nonce_caches h)
  answer_request-Remembers id key room n (authentic signature timestamp) t h more =
      check_nonce-Remembers (lookup spec.trigger_id t.nonce_caches) refl
    where
      check_nonce-Remembers :
          (o : Option (NonceLru Triple))
          → lookup spec.trigger_id t.nonce_caches ≡ o
          → Remembers id key room
              (suc n)
              (check_nonce env now spec r
                (spec.trigger_id, signature, timestamp)
                o
                t).1.nonce_caches
      check_nonce-Remembers none there = older id key room n t.nonce_caches h
      check_nonce-Remembers (some c) there =
          subst (Remembers id key room (suc n)) (sym (judge_nonce-caches _ _)) (
            check-Remembers id spec.trigger_id key (spec.trigger_id, signature, timestamp) room n
              t.nonce_caches c h more there)

  -- A request that starts a run is remembered.
  Started-Remembers :
      (t t' : WebhookTrigger) (reply : Reply)
      → (s : Started env now spec r t t' reply) → 0 < s.cache.capacity
      → Remembers spec.trigger_id
          (spec.trigger_id, s.signature, s.timestamp)
          s.cache.capacity
          0
          (handle_request env now spec r t).1.nonce_caches
  unfolding handle_request answer_request check_nonce
  Started-Remembers t t' reply s more =
      let key : Triple = (spec.trigger_id, s.signature, s.timestamp) in
      let (first, new) = check_and_record key s.cache in
      let caches = insert spec.trigger_id new t.nonce_caches in
      let held : Remembers spec.trigger_id key s.cache.capacity 0 caches = (
        new,
        ground (
          arith,
          lookup-insert spec.trigger_id spec.trigger_id new t.nonce_caches,
          string_keys.same_iff spec.trigger_id spec.trigger_id,
        ),
        check_and_record-capacity key s.cache,
        check_and_record-youngest key s.cache more s.new,
      ) in
      let same : (handle_request env now spec r t).1.nonce_caches ≡ caches =
        ap (λ c. (answer_request env now spec r c t).1.nonce_caches) s.checked
        ∙ (ap (λ o. (check_nonce env now spec r key o t).1.nonce_caches) s.cached
            ∙ judge_nonce-caches first (record t { nonce_caches = caches })) in
      subst (Remembers spec.trigger_id key s.cache.capacity 0) (sym same) held

  -- Such a request, while its key is remembered, starts none.
  Started-forgotten :
      (t t' : WebhookTrigger) (reply : Reply) (room n : ℕ)
      → (s : Started env now spec r t t' reply)
      → ¬ Remembers spec.trigger_id
          (spec.trigger_id, s.signature, s.timestamp)
          room
          n
          t.nonce_caches
  Started-forgotten t t' reply room n s (c, at, size, young) =
      let key : Triple = (spec.trigger_id, s.signature, s.timestamp) in
      let there = s.cached in
      let here : c ≡ s.cache = cc in
      ground (
        arith,
        s.new,
        check_and_record-refuses key n s.cache (subst (λ z. IsYoung key n z.keys) here young),
      )

-- A key that is young enough stays while fewer requests are handled than the cache has room for.
handle_all-Remembers :
    (env : Env) (id : String) (key : Triple) (room n : ℕ) (cs : List Call) (t : WebhookTrigger)
    → Remembers id key room n t.nonce_caches
    → n + length cs < room
    → Remembers id key room (n + length cs) (handle_all env cs t).nonce_caches
unfolding handle_all handle_request
handle_all-Remembers env id key room n [] t h few =
    subst (λ k. Remembers id key room k t.nonce_caches) (omega arith) h
handle_all-Remembers env id key room n (c ∷ cs) t h few =
    let t' = (handle_request env c.now c.spec c.request t).1 in
    subst (λ k. Remembers id key room k (handle_all env cs t').nonce_caches) (omega arith)
      (handle_all-Remembers env id key room (suc n) cs t'
        (answer_request-Remembers env c.now c.spec c.request id key room n
          (check_request env c.now c.spec c.request) t h (omega arith))
        (omega arith))

-- A request that was accepted is refused when it comes again, by any body and at any time, under the
-- same signature and time stamp: then no run is started and the answer is no 200. The condition is
-- that fewer requests than the cache of the trigger has room for were handled in between.
pub replay_refused :
    (env : Env) (now : ℕ) (spec : WebhookSpec) (r : Request) (t : WebhookTrigger) (key : String)
    (cache : NonceLru Triple) (later : List Call) (now' : ℕ) (r' : Request)
    → (handle_request env now spec r t).0 ≡ accepted key
    → lookup spec.trigger_id t.nonce_caches ≡ some cache
    → length later < cache.capacity
    → header spec.signature_header r' ≡ header spec.signature_header r
    → timestamp_of spec r' ≡ timestamp_of spec r
    → let before = handle_all env later (handle_request env now spec r t).1 in
      let (reply, after) = handle_request env now' spec r' before in
      (after.scheduler ≡ before.scheduler) × ((k : String) → ¬ (reply ≡ accepted k))
replay_refused env now spec r t key cache later now' r' yes_first cached few same_signature
      same_time =
    elim (starts_only_signed env now spec r t) [
      | inl (quiet, other) ↦ absurd (other key yes_first)
      | inr s ↦
          let before = handle_all env later (handle_request env now spec r t).1 in
          elim (starts_only_signed env now' spec r' before) [
            | inl inert ↦ inert
            | inr s' ↦
                let same_cache : cache ≡ s.cache = some_inj (sym cached ∙ s.cached) in
                let size : s.cache.capacity ≡ cache.capacity =
                  ap (λ c. c.capacity) (sym same_cache) in
                let first = Started-Remembers env now spec r t _ _ s (omega arith) in
                let same_text : s.signature ≡ s'.signature =
                  some_inj
                    (sym s.genuine.signed_by ∙ (sym same_signature ∙ s'.genuine.signed_by)) in
                let same_clock : s.timestamp ≡ s'.timestamp =
                  some_inj (sym s.genuine.at_time ∙ (sym same_time ∙ s'.genuine.at_time)) in
                let known =
                  handle_all-Remembers env spec.trigger_id
                    (spec.trigger_id, s.signature, s.timestamp) s.cache.capacity 0 later
                    (handle_request env now spec r t).1 first (omega arith) in
                absurd (
                  Started-forgotten env now' spec r' before _ _ s.cache.capacity (0 + length later)
                    s' (rw (same_text, same_clock) at known))
          ]
    ]
