-- ===== src/Triggers/Webhook/Models.antt =====
-- The data of webhooks (src/stargraph/triggers/webhook.py): specs, requests, the trigger's state, and how
-- `init` sets it up.
use stargraph.Common.{
  ℕ, String, Bool, false, Option, none, some, List, [], ◌∷◌, Value, Record, Result, ok, err, ◌>>=◌,
  runtime_error, string_keys,
}
use stargraph.Common.Dict.{Dict, insert}
use stargraph.Serve.Scheduler
use stargraph.Serve.Scheduler.{Scheduler}
use stargraph.Triggers.Webhook.Numbers.{ℤ, Triple}
use stargraph.Triggers.Webhook.Nonces.{NonceLru, new_lru}

-- The bytes of a body: those of a text in UTF-8, or others.
pub data Body : Type 0 where
  utf8 : String → Body
  not_utf8 : List ℕ → Body

pub record WebhookSpec : Type 0 where
  pub trigger_id : String
  pub path : String
  pub current_secret : List ℕ
  pub graph_id : String
  pub previous_secret : Option (List ℕ)
  pub params_extractor : Option (Body → Dict String String → Result Record)
  pub timestamp_window_seconds : ℕ
  pub nonce_lru_size : ℕ
  pub signature_header : String
  pub timestamp_header : String

pub record Request : Type 0 where
  pub headers : List (String × String)
  pub body : Body

pub record AuditEvent : Type 0 where
  pub trigger_id : String
  pub kind : String
  pub timestamp : ℤ
  pub path : String

-- `audited` is what the audit sink was handed, `logged` what went to the structured log.
pub record WebhookTrigger : Type 0 where
  pub scheduler : Option Scheduler
  pub audit_sink : Bool
  pub specs : List WebhookSpec
  pub nonce_caches : Dict String (NonceLru Triple)
  pub running : Bool
  pub audited : List AuditEvent
  pub logged : List AuditEvent

-- The hashes in hexadecimal, and `json.loads`, with `none` for its error.
pub record Env : Type 0 where
  pub hmac_sha256 : List ℕ → String → String
  pub sha256_body : Body → String
  pub sha256 : String → String
  pub json_loads : String → Option Value
  pub scheduling : Scheduler.Env

-- `__init__`
unfoldable pub new_trigger : WebhookTrigger
new_trigger = record {
  scheduler = none;
  audit_sink = false;
  specs = [];
  nonce_caches = [];
  running = false;
  audited = [];
  logged = [];
}

-- The loop of `init` over the specs: does one have an empty secret?
unfoldable pub check_secrets : List WebhookSpec → Result (Unit {0})
check_secrets [] = ok tt
check_secrets (spec ∷ specs) =
    let rest = check_secrets specs in
    elim spec.current_secret [
      | [] ↦ err (runtime_error "WebhookSpec has empty current_secret")
      | _ ∷ _ ↦ rest
    ]

unfoldable pub make_caches :
    List WebhookSpec → Dict String (NonceLru Triple) → Result (Dict String (NonceLru Triple))
unfolding new_lru insert
make_caches [] d = ok d
make_caches (spec ∷ specs) d = do
  cache ← new_lru spec.nonce_lru_size
  make_caches specs (insert spec.trigger_id cache d)

-- `init`, by what `deps` holds: the trigger as it is left, and the exception, if there is one. A cache
-- that is refused leaves the other fields written.
unfoldable pub init :
    Option Scheduler
    → Option (List WebhookSpec)
    → Bool
    → WebhookTrigger
    → WebhookTrigger × Result (Unit {0})
unfolding check_secrets make_caches
init none specs sink t =
    (t, err (runtime_error "WebhookTrigger.init(deps) requires deps['scheduler']"))
init (some s) none sink t =
    (t, err (runtime_error "WebhookTrigger.init(deps) requires deps['webhook_specs']"))
init (some s) (some []) sink t =
    (t, err (runtime_error "WebhookTrigger.init(deps) received empty deps['webhook_specs']"))
init (some s) (some (spec ∷ specs)) sink t = elim (check_secrets (spec ∷ specs)) [
  | err e ↦ (t, err e)
  | ok _ ↦
      let written = record t { scheduler = some s; audit_sink = sink; specs = spec ∷ specs } in
      elim (make_caches (spec ∷ specs) []) [
        | err e ↦ (written, err e)
        | ok caches ↦ (record written { nonce_caches = caches }, ok tt)
      ]
]
