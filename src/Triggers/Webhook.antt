-- ===== src/Triggers/Webhook.antt =====
-- `WebhookTrigger` of src/stargraph/triggers/webhook.py: signed calls from outside that start runs.
-- Between the reading of a request's body and its answer nothing else runs that touches the trigger,
-- so a request is one step. The lock of the nonce cache is never contended.
mod Numbers
mod Nonces
mod Models
pub use Numbers.{ℤ, pos, negsuc, Triple, triple_keys, text_of_int, distance, is_ascii}
unfoldable pub use Numbers.{int_of_text}
pub use Nonces.{NonceLru}
unfoldable pub use Nonces.{check_and_record}
pub use Models.{Body, utf8, not_utf8, WebhookSpec, Request, AuditEvent, WebhookTrigger, Env}
unfoldable pub use Models.{new_trigger, init}
pub mod Authentic
pub mod Starts
pub mod Replays
use stargraph.Common.{
  ℕ, zero, suc, ◌+◌, ◌≡◌, ◌⊎◌, inl, inr, String, Bool, true, false, ◌&&◌, Option, none, some, List,
  [], ◌∷◌, ◌++◌, Value, null, bool, int, neg_int, str, atom, obj, arr, Record, Result, ok, err,
  ◌>>=◌, Error, key_error, type_error, node_error, runtime_error, string_keys, ◌==◌, if◌then◌else◌,
  ltb, nat_eq, text_append, is_some,
}
use stargraph.Common.Dict.{Dict, lookup, insert}
use stargraph.Serve.Scheduler
use stargraph.Serve.Scheduler.{Scheduler, enqueue}
use Numbers.{lower, of_members}

-- `hmac.compare_digest`, which takes texts of ASCII only
unfoldable pub compare_digest : String → String → Result Bool
compare_digest a b =
    if is_ascii a && is_ascii b
    then ok (a == b)
    else err (type_error "comparing strings with non-ASCII characters is not supported")

module _ (env : Env) where
  -- `sign`
  unfoldable pub sign : List ℕ → ℤ → Body → Result String
  sign secret timestamp (utf8 text) =
      ok (env.hmac_sha256 secret (text_append (text_of_int timestamp) (text_append "." text)))
  sign secret timestamp (not_utf8 bytes) =
      err (node_error "UnicodeDecodeError" "invalid start byte")

  -- `verify`
  unfoldable pub verify : List ℕ → Option (List ℕ) → ℤ → Body → String → Result Bool
  unfolding sign compare_digest
  verify current previous timestamp body signature = do
    expected ← sign current timestamp body
    matches ← compare_digest expected signature
    if matches then ok true else elim previous [
      | none ↦ ok false
      | some secret ↦ do older ← sign secret timestamp body; compare_digest older signature
    ]

  -- `idempotency_key`
  unfoldable pub idempotency_key : String → Body → String
  idempotency_key trigger_id body =
      env.sha256 (text_append trigger_id (text_append "|" (env.sha256_body body)))

-- `{k.lower(): v for k, v in request.headers.items()}`
abbrev pub lower_keys : List (String × String) → Dict String String → Dict String String
lower_keys [] d = d
lower_keys ((k, v) ∷ hs) d = lower_keys hs (insert (lower k) v d)

abbrev pub header : String → Request → Option String
header name r = lookup (lower name) (lower_keys r.headers [])

-- How far a request gets: to a signature that is genuine, or not.
pub data Checked : Type 0 where
  refused : ℕ → String → Checked
  forged : ℤ → Checked
  crashed : Error → Checked
  authentic : String → ℤ → Checked

judged : String → ℤ → Result Bool → Checked
judged signature timestamp (err e) = crashed e
judged signature timestamp (ok true) = authentic signature timestamp
judged signature timestamp (ok false) = forged timestamp

-- The guards of `_handle_request` before the nonce, in their order.
unfoldable pub check_request : Env → ℕ → WebhookSpec → Request → Checked
unfolding verify judged lookup int_of_text
check_request env now spec r = elim (header spec.signature_header r) [
  | none ↦ refused 401 "missing_headers"
  | some signature ↦ elim (header spec.timestamp_header r) [
    | none ↦ refused 401 "missing_headers"
    | some raw ↦ elim (int_of_text raw) [
      | none ↦ refused 401 "invalid_timestamp"
      | some timestamp ↦
          if ltb spec.timestamp_window_seconds (distance now timestamp)
          then refused 401 "timestamp_out_of_window"
          else judged signature timestamp
              (verify env spec.current_secret spec.previous_secret timestamp r.body signature)
    ]
  ]
]

-- An `HTTPException`, or another exception (a 500).
pub data Failure : Type 0 where
  http : ℕ → String → Failure
  raised : Error → Failure

-- What the caller gets.
pub data Reply : Type 0 where
  accepted : String → Reply
  failed : Failure → Reply

-- `_extract_params`; the detail of a body that is no JSON goes on with the decoder's text.
unfoldable pub extract_params : Env → WebhookSpec → Request → Failure ⊎ Record
unfolding insert
extract_params env spec r = elim spec.params_extractor [
  | some extractor ↦ elim (extractor r.body (lower_keys r.headers [])) [
    | err e ↦ inl (raised e)
    | ok params ↦ inr params
  ]
  | none ↦ elim r.body [
    | not_utf8 [] ↦ inr []
    | not_utf8 (_ ∷ _) ↦ inl (http 400 "invalid_body_json")
    | utf8 text ↦ if text == "" then inr [] else decoded (env.json_loads text)
  ]
]
  where
    decoded : Option Value → Failure ⊎ Record
    decoded none = inl (http 400 "invalid_body_json")
    decoded (some (obj ms)) = inr (of_members ms [])
    decoded (some _) = inl (http 400 "body_not_json_object")

-- `_emit_audit`: an exception of the sink is swallowed.
unfoldable pub emit_audit : WebhookSpec → String → ℤ → WebhookTrigger → WebhookTrigger
emit_audit spec kind timestamp t =
    let event : AuditEvent = record {
      trigger_id = spec.trigger_id;
      kind = kind;
      timestamp = timestamp;
      path = spec.path;
    } in
    if t.audit_sink
    then record t { audited = t.audited ++ event ∷ [] }
    else record t { logged = t.logged ++ event ∷ [] }

-- `enqueue` gets no trigger source, so its default stands: "manual".
call_enqueue :
    Env → ℕ → WebhookSpec → Record → String → Scheduler → Result ((String × ℕ) × Scheduler)
unfolding enqueue
call_enqueue env now spec params key s =
    enqueue env.scheduling spec.graph_id params (some key) "manual" now s

enqueue_answer :
    String → Result ((String × ℕ) × Scheduler) → WebhookTrigger → Reply × WebhookTrigger
enqueue_answer key (err e) t = (failed (raised e), t)
enqueue_answer key (ok (_, s)) t = (accepted key, record t { scheduler = some s })

-- The end of `_handle_request`, with the parameters: the call of the scheduler.
unfoldable pub start_run :
    Env
    → ℕ
    → WebhookSpec
    → Body
    → Record
    → Option Scheduler
    → WebhookTrigger
    → Reply × WebhookTrigger
unfolding idempotency_key call_enqueue enqueue_answer
start_run env now spec body params none t =
    (failed (raised (runtime_error "WebhookTrigger received a request before init(deps)")), t)
start_run env now spec body params (some s) t =
    let key = idempotency_key env spec.trigger_id body in
    enqueue_answer key (call_enqueue env now spec params key s) t

-- The rest of `_handle_request`, once the nonce is recorded.
unfoldable pub admit :
    Env → ℕ → WebhookSpec → Request → Failure ⊎ Record → WebhookTrigger → Reply × WebhookTrigger
unfolding start_run
admit env now spec r (inl failure) t = (failed failure, t)
admit env now spec r (inr params) t = start_run env now spec r.body params t.scheduler t

-- With the answer of the cache: a nonce that was there is a replay.
unfoldable pub judge_nonce :
    Env → ℕ → WebhookSpec → Request → Bool → WebhookTrigger → Reply × WebhookTrigger
unfolding admit extract_params
judge_nonce env now spec r true t = admit env now spec r (extract_params env spec r) t
judge_nonce env now spec r false t = (failed (http 409 "duplicate_nonce"), t)

-- `_handle_request` from the nonce on, by the cache of the spec's trigger.
unfoldable pub check_nonce :
    Env
    → ℕ
    → WebhookSpec
    → Request
    → Triple
    → Option (NonceLru Triple)
    → WebhookTrigger
    → Reply × WebhookTrigger
unfolding check_and_record insert judge_nonce
check_nonce env now spec r key none t = (failed (raised (key_error spec.trigger_id)), t)
check_nonce env now spec r key (some cache) t =
    let (first_sight, cache') = check_and_record key cache in
    judge_nonce env now spec r first_sight
      (record t { nonce_caches = insert spec.trigger_id cache' t.nonce_caches })

-- `_handle_request` behind its guards
unfoldable pub answer_request :
    Env → ℕ → WebhookSpec → Request → Checked → WebhookTrigger → Reply × WebhookTrigger
unfolding check_nonce lookup emit_audit
answer_request env now spec r (refused code detail) t = (failed (http code detail), t)
answer_request env now spec r (crashed e) t = (failed (raised e), t)
answer_request env now spec r (forged timestamp) t =
    (failed (http 401 "invalid_signature"), emit_audit spec "webhook_signature_invalid" timestamp t)
answer_request env now spec r (authentic signature timestamp) t =
    check_nonce env now spec r (spec.trigger_id, signature, timestamp)
      (lookup spec.trigger_id t.nonce_caches) t

-- `_handle_request`
unfoldable pub handle_request :
    Env → ℕ → WebhookSpec → Request → WebhookTrigger → Reply × WebhookTrigger
unfolding answer_request check_request
handle_request env now spec r t = answer_request env now spec r (check_request env now spec r) t

-- A call: when it comes, on which route, and what it is.
pub record Call : Type 0 where
  pub now : ℕ
  pub spec : WebhookSpec
  pub request : Request

-- The requests that the trigger's routes get, in the order in which they are handled.
unfoldable pub handle_all : Env → List Call → WebhookTrigger → WebhookTrigger
unfolding handle_request
handle_all env [] t = t
handle_all env (c ∷ cs) t = handle_all env cs (handle_request env c.now c.spec c.request t).1
