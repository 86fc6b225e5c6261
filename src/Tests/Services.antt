-- ===== src/Tests/Services.antt =====
-- The rate limiter, resumption and cassettes.
use stargraph.Common.{
  ◌++◌, ℕ, ◌+◌, ◌*◌, ◌-◌, ◌≤◌, ◌≡◌, refl, sym, ◌∙◌, ◌≢◌, ◌↔◌, String, false, none, some, List, [],
  ◌∷◌, int, ok, err, type_error, Result, Record, arith, ◌==◌, string_keys, nat_keys, if◌then◌else◌,
}
use mathlib.Core.Bool.{false≢true}
use text.Mathlib.TextEquality.{eq_iff}
use stargraph.Common.Dict.{insert, lookup}
use stargraph.Graph.State.{Checkpoint, Graph}
use stargraph.Graph.Resume.{Reads, resume, load_checkpoint, has_cf_prefix}
use stargraph.Graph.Resume.Laws.{IsCompatible, resumed, resume-IsCompatible}
use stargraph.Replay.Cassettes.{Cassette, record_answer, get, to_state, from_state}
use stargraph.Replay.Cassettes.Laws.{get-from_state}
use stargraph.Security.Capabilities.{ToolSpec}
use stargraph.Registry.Tools.{ToolRegistry, new_registry, list_tools, register_all, tool_id}
use stargraph.Registry.Tools.Laws.{IsIndexed, register_all-IsIndexed}
use stargraph.Serve.RateLimit.{unit, TokenBucket, Registry}
use stargraph.Serve.RateLimit.Window.{Request, serve, serve-bound}

abbrev bucket : TokenBucket
bucket = record { capacity = 2; refill_per_minute = 2; tokens = 120000000; last_refill = some 0 }

abbrev requests : List Request
requests = (0, 1) ∷ (1000, 1) ∷ (30000000, 1) ∷ (59000000, 1) ∷ []

serve-bound_example :
    (serve requests bucket).0 * unit
    ≤ bucket.capacity * unit + (59000000 - 0) * bucket.refill_per_minute
serve-bound_example =
    serve-bound requests bucket 0 59000000 (omega arith) refl (omega arith)
      (omega arith, (omega arith, (omega arith, (omega arith, tt))))

-- Three tokens in 59 seconds, of a bucket that holds two.
three_in_a_minute : (serve requests bucket).0 ≡ 3
unfolding serve
three_in_a_minute = refl

abbrev registry : Registry
registry = record { capacity = 2; refill_per_minute = 2; buckets = ("bob", bucket) ∷ [] }

different : (s t : String) → s == t ≡ false → s ≢ t
different s t h e = absurd (false≢true (sym h ∙ (eq_iff s t).1 e))

abbrev graph : Graph
graph = record {
  graph_hash = "g2";
  runtime_hash = "r";
  nodes = [];
  parallel = [];
  migrate = record { from_hash = "g1"; to_hash = "g2" } ∷ [];
  tools = [];
  get_tool = none;
}

abbrev row : Checkpoint
row = record {
  run_id = "run-1";
  step = 4;
  branch_id = none;
  parent_step_idx = none;
  graph_hash = "g1";
  runtime_hash = "r";
  state = ("x", int 1) ∷ [];
  clips_facts = [];
  last_node = "a";
  next_action = none;
  parent_run_id = none;
  side_effects_hash = "h";
}

abbrev driver : Reads
driver = record {
  read_latest = λ id. some row;
  read_at_step = λ id k. if k == 4 then some row else none;
}

-- Pydantic takes no field of this name.
abbrev build : Record → Result {0} Unit
build [] = ok tt
build ((field, v) ∷ rest) =
    let later = build rest in if field == "__base__" then err (type_error field) else later

resume-IsCompatible_example :
    (resume build graph driver "run-1" (some 4) (some graph)
      ≡ ok (resumed graph "run-1" (some graph) row))
    ↔ ((ckpt : Checkpoint) × (load_checkpoint driver "run-1" (some 4) ≡ ok ckpt)
        × (has_cf_prefix ckpt ≡ false)
        × IsCompatible ckpt (some graph)
        × (build ckpt.state ≡ ok tt)
        × (resumed graph "run-1" (some graph) ckpt ≡ resumed graph "run-1" (some graph) row))
resume-IsCompatible_example =
    resume-IsCompatible build graph driver "run-1" (some 4) (some graph)
      (resumed graph "run-1" (some graph) row)

-- The block migrates from the row's hash to the graph's.
migrated_resume :
    resume build graph driver "run-1" (some 4) (some graph)
    ≡ ok (resumed graph "run-1" (some graph) row)
unfolding resume
migrated_resume = refl

abbrev cassette : Cassette String ℕ
cassette = (("a", 0), []) ∷ []

get-from_state_example :
    get "a" 0 (from_state (to_state (record_answer "b" 1 (("x", int 2) ∷ []) cassette))) ≡ some []
unfolding get lookup
get-from_state_example = get-from_state "b" "a" 1 0 (("x", int 2) ∷ []) cassette (tt, tt)

abbrev search : ToolSpec
search = record { namespace = "web"; name = "search"; version = "1"; permissions = [] }

abbrev query : ToolSpec
query = record { namespace = "db"; name = "query"; version = "1"; permissions = [] }

abbrev both_tools : ToolRegistry
both_tools = record {
  by_id = ("web.search@1", search) ∷ ("db.query@1", query) ∷ [];
  by_namespace = ("web", search ∷ []) ∷ ("db", query ∷ []) ∷ [];
}

register_all-IsIndexed_example :
    (list_tools none both_tools ≡ list_tools none new_registry ++ search ∷ query ∷ [])
    × IsIndexed both_tools
unfolding register_all new_registry list_tools lookup insert tool_id
register_all-IsIndexed_example =
    register_all-IsIndexed (search ∷ query ∷ []) new_registry both_tools refl (λ n. refl)
