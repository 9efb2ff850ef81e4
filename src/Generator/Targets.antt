-- ===== src/Generator/Targets.antt =====
-- buildTargetMap of pkg/generator/configs.go: the servers of a target, with their commands, arguments and
-- environments resolved. GetServerSpec may write into the registry, which is the state.
use fi_mcp_kit.Base.{
  String, Bool, not, ◌&&◌, Option, none, some, List, [], ◌∷◌, ◌++◌, str_eq, map, if◌then◌else◌,
}
use fi_mcp_kit.Base.Dict.{Dict, insert}
use fi_mcp_kit.Base.Int.{pos}
use fi_mcp_kit.Base.Run.{returns, panics, Eff, ◌>>=◌, pure}
use fi_mcp_kit.Base.Text.{trim_space}
use fi_mcp_kit.Base.Value.{Value, str}
use fi_mcp_kit.Registry.Types.{Registry, Server, TargetSpec}
use fi_mcp_kit.Registry.Query.{is_local_only}
use fi_mcp_kit.Registry.Spec.{get_server_spec}
use fi_mcp_kit.Generator.Tokens.{Env, resolve_tokens, resolve_command, resolve_args}

pub record ConfigOptions : Type 0 where
  pub registry_path : String
  pub repo_root : String
  pub hub_mode : Bool
  pub hub_url : String
  pub proxy_mode : Bool
  pub proxy_binary : String

abbrev pub flag : String → String → List Value
flag name value = if str_eq (trim_space value) "" then [] else str name ∷ str value ∷ []

unfoldable pub proxy_spec : ConfigOptions → String → TargetSpec
proxy_spec opts profile = record {
  description = "fi-mcp proxy - unified access to all servers";
  command = opts.proxy_binary;
  args =
      str "proxy"
      ∷ str "--target"
      ∷ str profile
      ∷ (flag "--registry" opts.registry_path ++ flag "--hub-url" opts.hub_url);
  env = none;
  hint = "network";
  timeout = pos 300;
  always_allow = [];
  kind = "stdio";
  tools = [];
  ssh = none;
}

unfoldable pub convert_to_hub_mode : TargetSpec → String → String → String → TargetSpec
convert_to_hub_mode spec name hub_url profile = record spec {
  command = "mcp-hub-wrapper";
  args = str name ∷ str "--profile" ∷ str profile ∷ str "--hub-url" ∷ str hub_url ∷ [];
  tools = [];
  ssh = none;
}

module _ (env : Env) (opts : ConfigOptions) where
  abbrev pub resolved_env : Dict String → Dict String
  resolved_env [] = []
  resolved_env ((k, v) ∷ e) = (k, resolve_tokens env v opts.repo_root "local") ∷ resolved_env e

  abbrev pub env_entries : Option (Dict String) → Dict String
  env_entries none = []
  env_entries (some e) = resolved_env e

  unfoldable pub resolve_spec : TargetSpec → TargetSpec
  unfolding resolve_tokens resolve_command resolve_args
  resolve_spec spec = record spec {
    command = resolve_command env spec.command opts.repo_root "local";
    args = map str (resolve_args env spec.args opts.repo_root "local");
    env = some (env_entries spec.env);
  }

  unfoldable pub target_spec : Server → String → TargetSpec → TargetSpec
  unfolding resolve_spec convert_to_hub_mode is_local_only
  target_spec s profile spec =
      let resolved = resolve_spec spec in
      if opts.hub_mode && not (is_local_only s)
      then convert_to_hub_mode resolved s.name opts.hub_url profile
      else resolved

  -- resolved[server.Name] = spec, unless it has no command.
  abbrev pub keep_spec : String → TargetSpec → Dict TargetSpec → Dict TargetSpec
  keep_spec name spec resolved =
      if str_eq spec.command "" then resolved else insert name spec resolved

  abbrev pub add_spec : Server → String → Option TargetSpec → Dict TargetSpec → Dict TargetSpec
  add_spec s profile none resolved = resolved
  add_spec s profile (some spec) resolved = keep_spec s.name (target_spec s profile spec) resolved

  unfoldable pub target_specs :
      String → String → List (Option Server) → Dict TargetSpec → Eff Registry (Dict TargetSpec)
  unfolding target_spec
  target_specs target profile [] resolved = pure resolved
  target_specs target profile (none ∷ rest) resolved = λ r. panics
  target_specs target profile (some s ∷ rest) resolved = get_server_spec s.name target >>= λ spec.
      target_specs target profile rest (add_spec s profile spec resolved)

  unfoldable pub build_target_map : String → String → Eff Registry (Dict TargetSpec)
  unfolding target_specs proxy_spec
  build_target_map target profile r =
      if opts.proxy_mode
      then returns (("fi_mcp", proxy_spec opts profile) ∷ [], r)
      else target_specs target profile r.servers [] r
