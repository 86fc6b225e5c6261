-- ===== src/Graph/Gates.antt =====
-- The capability gates of src/stargraph/graph/loop.py: `_check_tool_capabilities`,
-- `_check_node_capability` and the audit event of a denial.
pub mod Stable
pub mod Laws
use stargraph.Common.{
  ℕ, String, Bool, true, false, Option, none, some, List, [], ◌∷◌, Result, capability_error,
  if◌then◌else◌,
}
use stargraph.Security.Capabilities.{Capabilities, ToolSpec, has_permission, check}
use stargraph.Ir.Nodes.{NodeSpec}
use stargraph.Graph.State.{Setup, Run, Event, bosun_audit, capability_denied}
use stargraph.Graph.State.Exec.{Exec, ◌>>=◌, ◌>>◌, pure, throw, lift, modify}
use stargraph.Graph.Methods.{emit}

-- `_emit_capability_denied`, and the exception that follows it.
deny : String → String → List String → Exec Run (Unit {0})
unfolding emit
deny kind subject permissions = do
  modify (emit (bosun_audit (capability_denied kind subject permissions)))
  throw (capability_error subject)

check_tool : Capabilities → ToolSpec → Exec Run (Unit {0})
unfolding deny
check_tool caps tool = if check caps tool then pure tt else deny "tool" tool.name tool.permissions

check_tools : Capabilities → (String → Result ToolSpec) → List String → Exec Run (Unit {0})
unfolding check_tool
check_tools caps get_tool [] = pure tt
check_tools caps get_tool (id ∷ ids) =
    let rest = check_tools caps get_tool ids in
    do tool ← lift (get_tool id); check_tool caps tool; rest

check_all :
    Option Capabilities → Option (String → Result ToolSpec) → List String → Exec Run (Unit {0})
unfolding check_tools
check_all none get_tool ids = pure tt
check_all (some caps) none ids = pure tt
check_all (some caps) (some get_tool) ids = check_tools caps get_tool ids

unfoldable pub check_tool_capabilities : Setup → Exec Run (Unit {0})
unfolding check_all
check_tool_capabilities s = check_all s.capabilities s.graph.get_tool s.graph.tools

check_required : Capabilities → NodeSpec → Option String → Exec Run (Unit {0})
unfolding deny
check_required caps node none = pure tt
check_required caps node (some required) =
    if has_permission caps required then pure tt else deny "node" node.id (required ∷ [])

check_node_with : Option Capabilities → NodeSpec → Exec Run (Unit {0})
unfolding check_required
check_node_with none node = pure tt
check_node_with (some caps) node = check_required caps node node.required_capability

unfoldable pub check_node_capability : Setup → NodeSpec → Exec Run (Unit {0})
unfolding check_node_with
check_node_capability s node = check_node_with s.capabilities node
