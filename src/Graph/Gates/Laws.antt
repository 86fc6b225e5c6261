-- ===== src/Graph/Gates/Laws.antt =====
-- A denied node is never run: the gate raises, after telling the audit log.
use stargraph.Common.{
  ℕ, ◌≡◌, refl, String, false, none, some, List, [], ◌∷◌, arith, capability_error,
}
use stargraph.Security.Capabilities.{Capabilities, has_permission}
use stargraph.Ir.Nodes.{NodeSpec}
use stargraph.Graph.State.{State, Setup, Run, bosun_audit, capability_denied}
use stargraph.Graph.State.Exec.{raise, exception, ◌>>=◌, pure}
use stargraph.Graph.Methods.{Call, emit}
use stargraph.Graph.Gates.{
  check_all, check_tool_capabilities, deny, check_required, check_node_with, check_node_capability,
}
use stargraph.Graph.Loop.{run_node}
use stargraph.Runtime.Dispatch.{lookup_node}

-- A run without capabilities passes the gate.
pub check_node_capability-open :
    (s : Setup) (node : NodeSpec) → s.capabilities ≡ none → check_node_capability s node ≡ pure tt
unfolding check_node_capability check_node_with
check_node_capability-open s node e = rw e refl

pub check_tool_capabilities-open :
    (s : Setup) → s.capabilities ≡ none → check_tool_capabilities s ≡ pure tt
unfolding check_tool_capabilities check_all
check_tool_capabilities-open s e = rw e refl

-- If the run's capabilities do not grant what a node of the graph requires, the loop's step at the
-- node raises a CapabilityError and has, but for one audit event, changed nothing of the run: no
-- body ran, no other event was told and no checkpoint written.
pub denied_node_never_runs :
    (s : Setup) (fuel : ℕ) (calls : List Call) (id required : String) (node : NodeSpec)
    (caps : Capabilities) (state : State) (k : ℕ) (r : Run)
    → lookup_node s.graph.nodes id ≡ some node
    → s.capabilities ≡ some caps
    → node.required_capability ≡ some required
    → has_permission caps required ≡ false
    → run_node s fuel calls id state k r ≡ (
      raise (exception (capability_error node.id)),
      emit (bosun_audit (capability_denied "node" node.id (required ∷ []))) r,
    )
unfolding run_node check_node_capability ◌>>=◌ check_node_with check_required deny
denied_node_never_runs s fuel calls id required node caps state k r l c q d = ground arith
