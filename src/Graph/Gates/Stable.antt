-- ===== src/Graph/Gates/Stable.antt =====
-- What the capability gates cannot break.
use stargraph.Common.{String, Option, none, some, List, [], ◌∷◌, Result, refl}
use stargraph.Security.Capabilities.{Capabilities, ToolSpec, has_permission, check}
use stargraph.Ir.Nodes.{NodeSpec}
use stargraph.Graph.State.{Setup, Run}
use stargraph.Graph.State.Exec.Keeps.{
  Keeps, Keeps-pure, Keeps-throw, Keeps-lift, Keeps-modify, Keeps-bind, Keeps-if,
}
use stargraph.Graph.Methods.Stable.{IsStable}
use stargraph.Graph.Gates.{
  deny, check_tools, check_all, check_node_with, check_tool_capabilities, check_required,
  check_node_capability,
}

module _ {s : Setup} {P : Run → Type 0} (st : IsStable s P) where
  deny-Keeps :
      (kind subject : String) (permissions : List String) → Keeps P (deny kind subject permissions)
  unfolding deny
  deny-Keeps kind subject permissions =
      Keeps-bind _ _ (Keeps-modify _ (λ r h. st.sends _ r refl h)) λ _. Keeps-throw _

  check_tools-Keeps :
      (caps : Capabilities) (get_tool : String → Result ToolSpec) (ids : List String)
      → Keeps P (check_tools caps get_tool ids)
  unfolding check_tools
  check_tools-Keeps caps get_tool [] = Keeps-pure _
  check_tools-Keeps caps get_tool (id ∷ ids) = Keeps-bind _ _ (Keeps-lift _) λ tool.
      Keeps-bind _ _ (Keeps-if (check caps tool) _ _ (Keeps-pure _) (deny-Keeps _ _ _))
        λ _. check_tools-Keeps caps get_tool ids

  check_all-Keeps :
      (caps : Option Capabilities) (get : Option (String → Result ToolSpec)) (ids : List String)
      → Keeps P (check_all caps get ids)
  unfolding check_all
  check_all-Keeps none get ids = Keeps-pure _
  check_all-Keeps (some caps) none ids = Keeps-pure _
  check_all-Keeps (some caps) (some get) ids = check_tools-Keeps caps get ids

  pub check_tool_capabilities-Keeps : Keeps P (check_tool_capabilities s)
  unfolding check_tool_capabilities
  check_tool_capabilities-Keeps = check_all-Keeps s.capabilities s.graph.get_tool s.graph.tools

  check_required-Keeps :
      (caps : Capabilities) (node : NodeSpec) (required : Option String)
      → Keeps P (check_required caps node required)
  unfolding check_required
  check_required-Keeps caps node none = Keeps-pure _
  check_required-Keeps caps node (some required) =
      Keeps-if (has_permission caps required) _ _ (Keeps-pure _) (deny-Keeps _ _ _)

  check_node_with-Keeps :
      (caps : Option Capabilities) (node : NodeSpec) → Keeps P (check_node_with caps node)
  unfolding check_node_with
  check_node_with-Keeps none node = Keeps-pure _
  check_node_with-Keeps (some caps) node = check_required-Keeps caps node node.required_capability

  pub check_node_capability-Keeps : (node : NodeSpec) → Keeps P (check_node_capability s node)
  unfolding check_node_capability
  check_node_capability-Keeps node = check_node_with-Keeps s.capabilities node
