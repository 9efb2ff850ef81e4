-- ===== src/Router/Index.antt =====
-- The tool index: which servers provide a tool. BuildToolIndex, addToolToIndex, AddToolToIndex, and
-- the index that SetRegistry builds.
use fi_mcp_kit.Base.{String, Option, none, some, List, [], ◌∷◌, ◌++◌, contains, if◌then◌else◌}
use fi_mcp_kit.Base.Dict.{Dict, lookup, insert, read}
use fi_mcp_kit.Base.Run.{Run, returns, panics}
use fi_mcp_kit.Registry.Types.{Registry, Server, TargetSpec, ToolSchema}

abbrev pub ToolIndex : Type 0
ToolIndex = Dict (List String)

-- The entry is missing, or it has the servers so far.
unfoldable pub add_provider : String → String → ToolIndex → Option (List String) → ToolIndex
add_provider tool server i none = insert tool (server ∷ []) i
add_provider tool server i (some servers) =
    if contains servers server then i else insert tool (servers ++ (server ∷ [])) i

unfoldable pub add_tool_to_index : String → String → ToolIndex → ToolIndex
add_tool_to_index tool server i = add_provider tool server i (lookup tool i)

unfoldable pub add_tools : String → List ToolSchema → ToolIndex → ToolIndex
add_tools server [] i = i
add_tools server (t ∷ ts) i = add_tools server ts (add_tool_to_index t.name server i)

abbrev pub tools_of : Option TargetSpec → List ToolSchema
tools_of none = []
tools_of (some spec) = spec.tools

unfoldable pub add_targets : String → Dict (Option TargetSpec) → ToolIndex → ToolIndex
add_targets server [] i = i
add_targets server ((target, spec) ∷ rest) i =
    add_targets server rest (add_tools server (tools_of spec) i)

unfoldable pub add_servers : List (Option Server) → ToolIndex → ToolIndex
add_servers [] i = i
add_servers (none ∷ rest) i = add_servers rest i
add_servers (some s ∷ rest) i =
    add_servers rest (add_targets s.name s.targets (add_tools s.name (tools_of s.common) i))

-- The index that BuildToolIndex makes for a registry that is not nil.
unfoldable pub index_of : Registry → ToolIndex
index_of r = add_servers r.servers []

-- `r.toolIndex[tool.Name] = append(r.toolIndex[tool.Name], s.Name)`
unfoldable pub append_tools : String → List ToolSchema → ToolIndex → ToolIndex
append_tools server [] i = i
append_tools server (t ∷ ts) i =
    append_tools server ts (insert t.name (read [] t.name i ++ (server ∷ [])) i)

unfoldable pub append_targets : String → Dict (Option TargetSpec) → ToolIndex → Run ToolIndex
append_targets server [] i = returns i
append_targets server ((target, none) ∷ rest) i = panics
append_targets server ((target, some spec) ∷ rest) i =
    append_targets server rest (append_tools server spec.tools i)

unfoldable pub append_servers : List (Option Server) → ToolIndex → Run ToolIndex
append_servers [] i = returns i
append_servers (none ∷ rest) i = panics
append_servers (some s ∷ rest) i =
    let next = append_servers rest in
    elim (append_targets s.name s.targets i) [ returns j ↦ next j | panics ↦ panics ]
