-- ===== src/Registry/Types.antt =====
-- The data of pkg/registry/registry.go, as YAML decoding fills it. A pointer is an Option, and so
-- is a map where the code tells nil from empty; other nil maps and slices read as empty.
use fi_mcp_kit.Base.{String, Bool, Option, none, List, []}
use fi_mcp_kit.Base.Dict.{Dict}
use fi_mcp_kit.Base.Int.{ℤ, pos}
use fi_mcp_kit.Base.Value.{Value}

pub record PlatformPermission : Type 0 where
  pub settings : Dict Value
  pub allow : List String
  pub deny : List String
  pub additional_directories : List String

pub record SandboxPolicy : Type 0 where
  pub require_sandbox : List String
  pub recommend_sandbox : List String
  pub auto_provision : Bool
  pub default_backend : String

pub record RoutingCase : Type 0 where
  pub pattern_text : String
  pub server : String

pub record RoutingRule : Type 0 where
  pub tool_name : String
  pub argument : String
  pub cases : List RoutingCase
  pub fallback : String

pub record EnvVar : Type 0 where
  pub fallbacks : List String

pub record InputSchema : Type 0 where
  pub kind : String
  pub properties : Dict Value
  pub required : List String

pub record ToolSchema : Type 0 where
  pub name : String
  pub description : String
  pub input_schema : InputSchema

pub record SshSpec : Type 0 where
  pub host : String
  pub user : String
  pub key_file : String
  pub use_agent : Option Bool
  pub strict_host_key_checking : Option Bool
  pub known_hosts_file : String
  pub connect_timeout : ℤ

pub record TargetSpec : Type 0 where
  pub description : String
  pub command : String
  pub args : List Value
  pub env : Option (Dict String)
  pub hint : String
  pub timeout : ℤ
  pub always_allow : List String
  pub kind : String
  pub tools : List ToolSchema
  pub ssh : Option SshSpec

pub record Server : Type 0 where
  pub name : String
  pub url : String
  pub categories : List String
  pub always_allow : List String
  pub common : Option TargetSpec
  pub targets : Dict (Option TargetSpec)

pub record Registry : Type 0 where
  pub version : ℤ
  pub env_aliases : Option (Dict EnvVar)
  pub servers : List (Option Server)
  pub routing : List (Option RoutingRule)
  pub platform_permissions : Dict (Option PlatformPermission)
  pub sandbox_policy : Option SandboxPolicy

-- &TargetSpec{}
abbrev pub empty_spec : TargetSpec
empty_spec = record {
  description = "";
  command = "";
  args = [];
  env = none;
  hint = "";
  timeout = pos 0;
  always_allow = [];
  kind = "";
  tools = [];
  ssh = none;
}
