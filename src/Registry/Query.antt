-- ===== src/Registry/Query.antt =====
-- The questions of pkg/registry/registry.go that walk over the servers. The ones that dereference a
-- server without a nil test panic on a null entry of the list.
use fi_mcp_kit.Base.{
  String, Bool, true, false, not, ◌||◌, Option, none, some, List, [], ◌∷◌, ◌++◌, cat, any_of, map,
  if◌then◌else◌,
}
use fi_mcp_kit.Base.Text.{equal_fold}
use fi_mcp_kit.Base.Run.{Run, returns, panics, Eff, ◌>>=◌, pure}
use fi_mcp_kit.Registry.Types.{Registry, Server, TargetSpec, ToolSchema}
use fi_mcp_kit.Registry.Spec.{get_server_spec}

abbrev pub names_of : List (Option Server) → Run (List String)
names_of [] = returns []
names_of (none ∷ rest) = panics
names_of (some s ∷ rest) = elim (names_of rest) [
  | returns names ↦ returns (s.name ∷ names)
  | panics ↦ panics
]

pub list_servers : Registry → Run (List String)
list_servers r = names_of r.servers

abbrev pub in_category : String → Server → Bool
in_category category s = any_of (λ c. equal_fold c category) s.categories

abbrev pub of_category : String → List (Option Server) → Run (List Server)
of_category category [] = returns []
of_category category (none ∷ rest) = panics
of_category category (some s ∷ rest) = elim (of_category category rest) [
  | returns found ↦ returns (if in_category category s then s ∷ found else found)
  | panics ↦ panics
]

-- For a category in ASCII.
pub list_servers_by_category : Registry → String → Run (List Server)
list_servers_by_category r category = of_category category r.servers

unfoldable pub is_local_only : Server → Bool
is_local_only s = any_of (λ c. equal_fold c "local-only" || equal_fold c "filesystem") s.categories

unfoldable pub is_hub_capable : Server → Bool
unfolding is_local_only
is_hub_capable s =
    if any_of (λ c. equal_fold c "hub" || equal_fold c "cloud") s.categories
    then true
    else not (is_local_only s)

-- server__tool
abbrev pub namespaced : String → String → String
namespaced server tool = cat server (cat "__" tool)

abbrev pub static_tools_of : String → Option TargetSpec → List ToolSchema
static_tools_of server none = []
static_tools_of server (some spec) =
    map {A = ToolSchema} (λ t. record t { name = namespaced server t.name }) spec.tools

-- The loop of GetStaticTools; the slice of servers is read once, before the loop.
unfoldable pub static_tools : String → List (Option Server) → Eff Registry (List ToolSchema)
static_tools target [] = pure []
static_tools target (none ∷ rest) = λ r. panics
static_tools target (some s ∷ rest) = do
  spec ← get_server_spec s.name target
  tools ← static_tools target rest
  pure (static_tools_of s.name spec ++ tools)

pub get_static_tools : String → Eff Registry (List ToolSchema)
unfolding static_tools
get_static_tools target r = static_tools target r.servers r

abbrev pub has_tools : Option TargetSpec → Bool
has_tools none = false
has_tools (some spec) = elim spec.tools [ [] ↦ false | t ∷ ts ↦ true ]

abbrev pub any_has_tools : List (Option Server) → Run Bool
any_has_tools [] = returns false
any_has_tools (none ∷ rest) = panics
any_has_tools (some s ∷ rest) =
    if has_tools s.common || any_of (λ (e : String × Option TargetSpec). has_tools e.1) s.targets
    then returns true
    else any_has_tools rest

pub has_static_tools : Registry → Run Bool
has_static_tools r = any_has_tools r.servers
