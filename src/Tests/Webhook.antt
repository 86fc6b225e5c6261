-- ===== src/Tests/Webhook.antt =====
-- A signed call from outside, and the same call again.
use stargraph.Common.{
  ok, ◌+◌, ◌≡◌, refl, ◌⊎◌, String, true, false, none, some, [], ◌∷◌, arith, obj, no_member,
  text_append,
}
use stargraph.Common.Dict.{lookup}
use stargraph.Serve.Scheduler
use stargraph.Serve.Scheduler.{Scheduler, new_scheduler}
use stargraph.Triggers.Webhook.{
  utf8, WebhookSpec, Request, Env, WebhookTrigger, new_trigger, init, accepted, failed, http,
  handle_request, handle_all, Call,
}
use stargraph.Triggers.Webhook.Starts.{Started, starts_only_signed}
use stargraph.Triggers.Webhook.Replays.{replay_refused}

abbrev scheduling : Scheduler.Env
scheduling = record {
  digest = λ s. s;
  synth_key = λ s n. s;
  cron_key = λ s n. s;
  wall = λ spec t. t;
  next_fire = λ spec n. n + 1;
}

abbrev env : Env
env = record {
  hmac_sha256 = λ secret text. text_append "mac:" text;
  sha256_body = λ body. "b";
  sha256 = λ s. s;
  json_loads = λ s. some (obj no_member);
  scheduling = scheduling;
}

abbrev hook : WebhookSpec
hook = record {
  trigger_id = "deploys";
  path = "/hooks/deploys";
  current_secret = 1 ∷ [];
  graph_id = "graph:deploy";
  previous_secret = none;
  params_extractor = none;
  timestamp_window_seconds = 300;
  nonce_lru_size = 2;
  signature_header = "X-Stargraph-Signature";
  timestamp_header = "X-Stargraph-Timestamp";
}

abbrev ready : Scheduler
ready = record (new_scheduler false false [] []) { running = true }

abbrev trigger : WebhookTrigger
trigger = record new_trigger {
  scheduler = some ready;
  specs = hook ∷ [];
  nonce_caches = ("deploys", record { keys = []; capacity = 2 }) ∷ [];
}

abbrev call : Request
call = record {
  headers = ("x-stargraph-signature", "mac:1000.{}") ∷ ("X-Stargraph-Timestamp", "1000") ∷ [];
  body = utf8 "{}";
}

set_up : init (some ready) (some (hook ∷ [])) false new_trigger ≡ (trigger, ok tt)
unfolding init new_trigger
set_up = refl

first_call : (handle_request env 1010 hook call trigger).0 ≡ accepted "deploys|b"
unfolding handle_request
first_call = refl

second_call :
    (handle_request env 1010 hook call (handle_request env 1010 hook call trigger).1).0
    ≡ failed (http 409 "duplicate_nonce")
unfolding handle_request
second_call = refl

late_call :
    (handle_request env 1301 hook call trigger).0 ≡ failed (http 401 "timestamp_out_of_window")
unfolding handle_request
late_call = refl

-- Another genuine call.
abbrev other : Call
other = record {
  now = 1011;
  spec = hook;
  request = record {
    headers = ("x-stargraph-signature", "mac:1001.{}") ∷ ("X-Stargraph-Timestamp", "1001") ∷ [];
    body = utf8 "{}";
  };
}

abbrev once_more : Call
once_more = record {
  now = 1012;
  spec = hook;
  request = record {
    headers = ("x-stargraph-signature", "mac:1002.{}") ∷ ("X-Stargraph-Timestamp", "1002") ∷ [];
    body = utf8 "{}";
  };
}

-- In a cache of two keys, two other calls make room for the first one again.
evicted :
    (handle_request env 1013 hook call
      (handle_all env (other ∷ once_more ∷ []) (handle_request env 1010 hook call trigger).1)).0
    ≡ accepted "deploys|b"
unfolding handle_request handle_all
evicted = refl

starts_only_signed_example :
    let (reply, t') = handle_request env 1010 hook call trigger in
    ((t'.scheduler ≡ trigger.scheduler) × ((k : String) → ¬ (reply ≡ accepted k)))
    ⊎ Started env 1010 hook call trigger t' reply
starts_only_signed_example = starts_only_signed env 1010 hook call trigger

replay_refused_example :
    let before = handle_all env (other ∷ []) (handle_request env 1010 hook call trigger).1 in
    let (reply, after) = handle_request env 1012 hook call before in
    (after.scheduler ≡ before.scheduler) × ((k : String) → ¬ (reply ≡ accepted k))
unfolding lookup
replay_refused_example =
    replay_refused env 1010 hook call trigger "deploys|b" (record { keys = []; capacity = 2 })
      (other ∷ []) 1012 call first_call refl (omega arith) refl refl
