-- ===== src/Registry/Tools.antt =====
-- `ToolRegistry` of src/stargraph/registry/tools.py, of tools as their specs.
pub mod Laws
use Prim.Native.String.{◌++◌ as text_append}
use stargraph.Common.{
  String, Bool, true, false, Option, none, some, List, [], ◌∷◌, ◌++◌, Result, ok, err, ◌>>=◌, map,
  plugin_load_error, string_keys, Option-cases,
}
use stargraph.Common.Dict.{Dict, lookup, insert}
use stargraph.Security.Capabilities.{ToolSpec}

-- `_tool_id`: namespace.name@version
unfoldable pub tool_id : ToolSpec → String
tool_id t =
    text_append t.namespace (text_append "." (text_append t.name (text_append "@" t.version)))

pub record ToolRegistry : Type 0 where
  pub by_id : Dict String ToolSpec
  pub by_namespace : Dict String (List ToolSpec)

unfoldable pub new_registry : ToolRegistry
new_registry = record { by_id = []; by_namespace = [] }

abbrev pub or_nothing : Option (List ToolSpec) → List ToolSpec
or_nothing none = []
or_nothing (some ts) = ts

-- A tool whose id is known is refused; another is put in both indexes.
register_new : ToolSpec → Option ToolSpec → ToolRegistry → Result ToolRegistry
unfolding lookup insert tool_id
register_new t (some known) g = err (plugin_load_error (tool_id t))
register_new t none g = ok (record {
  by_id = insert (tool_id t) t g.by_id;
  by_namespace =
      insert t.namespace (or_nothing (lookup t.namespace g.by_namespace) ++ t ∷ []) g.by_namespace;
})

-- `register`
unfoldable pub register : ToolSpec → ToolRegistry → Result ToolRegistry
unfolding register_new
register t g = register_new t (lookup (tool_id t) g.by_id) g

-- `self._by_id.values()`
abbrev pub values : Dict String ToolSpec → List ToolSpec
values [] = []
values ((k, t) ∷ d) = t ∷ values d

-- `list_tools`
unfoldable pub list_tools : Option String → ToolRegistry → List ToolSpec
unfolding lookup
list_tools none g = values g.by_id
list_tools (some namespace) g = or_nothing (lookup namespace g.by_namespace)

-- `get_tool`
unfoldable pub get_tool : String → ToolRegistry → Result ToolSpec
unfolding lookup
get_tool id g = elim (lookup id g.by_id) [ none ↦ err (plugin_load_error id) | some t ↦ ok t ]

-- Tools registered in order.
unfoldable pub register_all : List ToolSpec → ToolRegistry → Result ToolRegistry
unfolding register
register_all [] g = ok g
register_all (t ∷ ts) g = do g' ← register t g; register_all ts g'

-- The inner loop of `install_plugin_tools`, over what a plugin hands in: a callable with its spec, or anything else.
unfoldable pub install_tools : List (Option ToolSpec) → ToolRegistry → Result ToolRegistry
unfolding register
install_tools [] g = ok g
install_tools (none ∷ rest) g =
    err (plugin_load_error "register_tools() must return @tool-decorated callables")
install_tools (some t ∷ rest) g = do g' ← register t g; install_tools rest g'

-- `install_plugin_tools`; a plugin that hands in None hands in nothing.
unfoldable pub install_plugin_tools :
    List (Option (List (Option ToolSpec))) → ToolRegistry → Result ToolRegistry
unfolding install_tools
install_plugin_tools [] g = ok g
install_plugin_tools (none ∷ results) g = install_plugin_tools results g
install_plugin_tools (some tools ∷ results) g = do
  g' ← install_tools tools g
  install_plugin_tools results g'
