-- ===== src/Runtime/Dispatch/Plain.antt =====
-- A tick where no rules engine, no gate and no receipt is configured, and the driver accepts.
use stargraph.Common.{
  ℕ, suc, ◌≡◌, refl, String, false, none, some, List, [], ◌∷◌, ◌++◌, Record, string_keys,
}
use stargraph.Common.Dict.{update}
use stargraph.Ir.Nodes.{NodeSpec}
use stargraph.Runtime.Action.{continue, translate_actions}
use stargraph.Runtime.Mirror.{retract_step, persist_pinned}
use stargraph.Runtime.Dispatch.{
  next_node_id, tick_row, body_outcome, run_body, model_copy, consult, attest, store_facts,
  settle_mirrors, commit, tick_body, route, dispatch_node,
}
use stargraph.Graph.State.{State, model, Checkpoint, outputs, Setup, Run}
use stargraph.Graph.State.Exec.{return, ◌>>=◌}
use stargraph.Graph.Methods.{interfere, emit, write_row}

-- The bodies of the nodes, by id.
abbrev pub Bodies : Type 0
Bodies = String → State → ℕ → Record

-- The run with these bodies and no rules, gates, blocks, or receipts, on a driver that accepts.
abbrev pub plain : Bodies → Setup → Setup
plain body s = record s {
  graph = record s.graph { parallel = [] };
  node_registry = λ id. some (λ st k. outputs (body id st k));
  checkpointer = some (λ row. none);
  capabilities = none;
  engine = none;
  receipt_sink = none;
}

-- A run that nothing has stopped, with the rows `written` so far.
pub record IsOn (r : Run) (written : List Checkpoint) : Type 0 where
  pub cancel_event : r.cancel_event ≡ false
  pub pause_event : r.pause_event ≡ false
  pub pinned_bucket : r.mirror_scheduler.pinned_bucket ≡ []
  pub told : r.written ≡ written

-- The tick runs the body, lays its outputs over the fields, writes one row and goes on to the next
-- node of the graph.
pub dispatch_node-plain :
    (s : Setup) (body : Bodies) (fuel : ℕ) (n : NodeSpec) (f : Record) (k : ℕ) (r : Run)
    (written : List Checkpoint)
    → IsOn r written
    → let out = body n.id (model f) k in
      let after = dispatch_node (plain body s) (suc fuel) [] n (model f) k r in
      (after.0 ≡ return (model (update f out), next_node_id s.graph.nodes n.id))
      × IsOn after.1 (written ++ tick_row s n.id (model (update f out)) out k continue ∷ [])
unfolding dispatch_node tick_body run_body body_outcome model_copy consult commit attest
    settle_mirrors store_facts retract_step persist_pinned write_row emit interfere route
    translate_actions tick_row ◌>>=◌
dispatch_node-plain s body fuel n f k r written h =
    rw (h.pinned_bucket, h.told)
      (
        refl,
        record {
          cancel_event = h.cancel_event;
          pause_event = h.pause_event;
          pinned_bucket = refl;
          told = refl;
        },
      )
