-- ===== src/Registry/Spec.antt =====
-- GetServer, GetServerSpec with mergeSpec, and IsToolAlwaysAllowed of pkg/registry/registry.go.
-- GetServerSpec copies the common spec, but the copy shares its Env map with the registry: what
-- mergeSpec writes there is written into the registry, which is therefore a state of these actions.
use fi_mcp_kit.Base.{
  suc, String, Bool, true, false, Option, none, some, List, [], ◌∷◌, str_eq, contains,
  if◌then◌else◌,
}
use fi_mcp_kit.Base.Dict.{Dict, lookup, insert}
use fi_mcp_kit.Base.Int.{ℤ, pos}
use fi_mcp_kit.Base.Run.{returns, panics, Eff, ◌>>=◌, pure}
use fi_mcp_kit.Registry.Types.{Registry, Server, TargetSpec, empty_spec}

unfoldable pub find_server : String → List (Option Server) → Option Server
find_server n [] = none
find_server n (none ∷ rest) = find_server n rest
find_server n (some s ∷ rest) = if str_eq s.name n then some s else find_server n rest

unfoldable pub get_server : Registry → String → Option Server
unfolding find_server
get_server r n = find_server n r.servers

-- `if src.X != "" { dst.X = src.X }`, and the same for numbers, slices and pointers.
abbrev pub over_text : String → String → String
over_text dst src = if str_eq src "" then dst else src

abbrev pub over_positive : ℤ → ℤ → ℤ
over_positive dst (pos (suc n)) = pos (suc n)
over_positive dst _ = dst

abbrev pub over_list {ℓ} : {A : Type ℓ} → List A → List A → List A
over_list dst [] = dst
over_list dst (x ∷ xs) = x ∷ xs

abbrev pub over_pointer {ℓ} : {A : Type ℓ} → Option A → Option A → Option A
over_pointer dst none = dst
over_pointer dst (some x) = some x

-- `for k, v := range src { dst[k] = v }`
unfoldable pub write_all : Dict String → Dict String → Dict String
write_all dst [] = dst
write_all dst ((k, v) ∷ src) = write_all (insert k v dst) src

unfoldable pub merge_env : Option (Dict String) → Option (Dict String) → Option (Dict String)
merge_env dst none = dst
merge_env none (some src) = some (write_all [] src)
merge_env (some dst) (some src) = some (write_all dst src)

unfoldable pub merge_spec : TargetSpec → TargetSpec → TargetSpec
merge_spec dst src = record {
  description = over_text dst.description src.description;
  command = over_text dst.command src.command;
  args = over_list dst.args src.args;
  env = merge_env dst.env src.env;
  hint = over_text dst.hint src.hint;
  timeout = over_positive dst.timeout src.timeout;
  always_allow = over_list dst.always_allow src.always_allow;
  kind = over_text dst.kind src.kind;
  tools = over_list dst.tools src.tools;
  ssh = over_pointer dst.ssh src.ssh;
}

-- The common spec's Env map holds what was merged into it. A nil map is not shared.
abbrev pub share_env : Option (Dict String) → Option TargetSpec → Option TargetSpec
share_env (some env) (some c) = elim c.env [
  | none ↦ some c
  | some old ↦ some (record c { env = some env })
]
share_env _ c = c

-- The registry behind a merge into the first server of that name.
unfoldable pub write_back :
    String → Option (Dict String) → List (Option Server) → List (Option Server)
write_back n env [] = []
write_back n env (none ∷ rest) = none ∷ write_back n env rest
write_back n env (some s ∷ rest) =
    if str_eq s.name n
    then some (record s { common = share_env env s.common }) ∷ rest
    else some s ∷ write_back n env rest

abbrev pub common_spec : Server → TargetSpec
common_spec s = elim s.common [ none ↦ empty_spec | some c ↦ c ]

-- `if target != "" && server.Targets != nil { targetSpec, ok := … }`; the entry may be a nil pointer.
abbrev pub target_entry : Server → String → Option (Option TargetSpec)
target_entry s target = if str_eq target "" then none else lookup target s.targets

abbrev pub merged :
    String → TargetSpec → Option (Option TargetSpec) → Eff Registry (Option TargetSpec)
merged n spec none r = returns (some spec, r)
merged n spec (some none) r = panics
merged n spec (some (some src)) r =
    let spec' = merge_spec spec src in
    returns (some spec', record r { servers = write_back n spec'.env r.servers })

-- `none` is the error that the server is not found.
unfoldable pub spec_for : String → String → Option Server → Eff Registry (Option TargetSpec)
spec_for n target none r = returns (none, r)
spec_for n target (some s) r = merged n (common_spec s) (target_entry s target) r

unfoldable pub get_server_spec : String → String → Eff Registry (Option TargetSpec)
unfolding spec_for
get_server_spec n target r = spec_for n target (get_server r n) r

unfoldable pub spec_allows : String → Option TargetSpec → Bool
spec_allows tool none = false
spec_allows tool (some spec) = contains spec.always_allow tool

unfoldable pub allowed_for : String → String → String → Option Server → Eff Registry Bool
unfolding spec_allows
allowed_for n target tool none r = returns (false, r)
allowed_for n target tool (some s) r =
    if contains s.always_allow tool
    then returns (true, r)
    else (do spec ← get_server_spec n target; pure (spec_allows tool spec)) r

-- On a registry that is not nil; on nil the method returns false.
unfoldable pub is_tool_always_allowed : String → String → String → Eff Registry Bool
unfolding allowed_for
is_tool_always_allowed n target tool r = allowed_for n target tool (get_server r n) r
