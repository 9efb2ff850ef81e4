-- ===== src/Registry/Tests.antt =====
-- A registry of two servers, runs of the queries on it, and the theorems of the registry at it.
use fi_mcp_kit.Base.{◌≡◌, refl, String, true, none, some, [], ◌∷◌, arith}
use fi_mcp_kit.Base.Dict.{lookup, insert}
use fi_mcp_kit.Base.Int.{pos}
use fi_mcp_kit.Base.Run.{returns, ◌>>=◌}
use fi_mcp_kit.Registry.Types.{Registry, Server, TargetSpec, ToolSchema, empty_spec}
use fi_mcp_kit.Registry.Spec.{
  get_server, write_all, merge_env, merge_spec, write_back, spec_for, get_server_spec,
  is_tool_always_allowed,
}
use fi_mcp_kit.Registry.SpecLaws.{Answers, is_tool_always_allowed_lem}
use fi_mcp_kit.Registry.Leak.{seen, leak}

abbrev pub tool_named : String → ToolSchema
tool_named n = record {
  name = n;
  description = "";
  input_schema = record { kind = "object"; properties = []; required = [] };
}

abbrev pub common : TargetSpec
common = record empty_spec {
  command = "git-mcp";
  env = some (("TOKEN", "common") ∷ []);
  always_allow = "status" ∷ [];
  tools = tool_named "status" ∷ [];
}

abbrev pub dev : TargetSpec
dev = record empty_spec { env = some (("TOKEN", "dev") ∷ []); tools = tool_named "log" ∷ [] }

abbrev pub git : Server
git = record {
  name = "git";
  url = "";
  categories = "filesystem" ∷ [];
  always_allow = [];
  common = some common;
  targets = ("dev", some dev) ∷ [];
}

abbrev pub web : Server
web = record git {
  name = "web";
  categories = "cloud" ∷ [];
  common = none;
  targets = ("dev", some dev) ∷ [];
}

-- A target whose YAML entry is empty.
abbrev pub web_null : Server
web_null = record web { targets = ("off", none) ∷ [] }

abbrev pub two_servers : Registry
two_servers = record {
  version = pos 1;
  env_aliases = none;
  servers = some git ∷ some web ∷ [];
  routing = [];
  platform_permissions = [];
  sandbox_policy = none;
}

abbrev null_target : Registry
null_target = record two_servers { servers = some web_null ∷ [] }

found : get_server two_servers "git" ≡ some git
unfolding get_server
found = refl

abbrev after_dev : Registry
after_dev = record two_servers {
  servers = some (record git { common = some (record common { env = dev.env }) }) ∷ some web ∷ [];
}

dev_call :
    get_server_spec "git" "dev" two_servers ≡ returns (some (merge_spec common dev), after_dev)
unfolding get_server_spec spec_for get_server merge_spec merge_env write_all insert write_back
    lookup
dev_call = refl

is_tool_always_allowed_lem_example :
    Answers true two_servers (is_tool_always_allowed "git" "dev" "status" two_servers)
unfolding get_server lookup
is_tool_always_allowed_lem_example =
    is_tool_always_allowed_lem "git" "dev" "status" two_servers (ground arith)

leak_example :
    (seen "TOKEN" (get_server_spec "git" "prod" two_servers) ≡ some "common")
    × (seen "TOKEN"
          ((get_server_spec "git" "dev" >>= λ _. get_server_spec "git" "prod") two_servers)
        ≡ some "dev")
unfolding get_server lookup
leak_example =
    leak "TOKEN" "dev" "git" "dev" "prod" two_servers git common dev (("TOKEN", "common") ∷ [])
      (("TOKEN", "dev") ∷ []) refl refl refl refl refl (refl, tt) refl refl
