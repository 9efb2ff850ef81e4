-- ===== src/Generator/Configs.antt =====
-- The files that pkg/generator/configs.go writes for the targets, and the loop over them.
use fi_mcp_kit.Base.{
  ℕ, zero, suc, ◌*◌, ◌-◌, leb, if◌then◌else◌, String, Bool, true, false, Option, none, some, List,
  [], ◌∷◌, ◌++◌, cat, str_eq, map,
}
use Prim.Native.Nat.{◌%◌}
use fi_mcp_kit.Base.Decimal.{itoa}
use fi_mcp_kit.Base.Dict.{Dict, insert, lookup}
use fi_mcp_kit.Base.Int.{ℤ, pos, negsuc}
use fi_mcp_kit.Base.Value.{
  Value, str, number, truth, fields, strs, Members, no_members, with_member, object,
}
use fi_mcp_kit.Registry.Types.{TargetSpec}
use fi_mcp_kit.Validator.Result.{texts}
use fi_mcp_kit.Validator.Formats.{int_text}
use fi_mcp_kit.Generator.Deployment.{sort_strings}
use fi_mcp_kit.Generator.Tokens.{Env}

abbrev pub strings_map : Dict String → Value
strings_map d = fields (map {A = String × String} {B = String × Value} (λ e. (e.0, str e.1)) d)

-- An entry that is left out where the map is nil or empty.
abbrev pub env_entry : String → Option (Dict String) → List (String × Value)
env_entry key none = []
env_entry key (some []) = []
env_entry key (some (e ∷ d)) = (key, strings_map (e ∷ d)) ∷ []

-- A number that is not negative, as an int of 64 bits holds it.
abbrev pub int64_max : ℕ
int64_max = 9_223_372_036_854_775_807

unfoldable pub wrap_int : ℕ → ℤ
wrap_int n =
    let bits = n % 18_446_744_073_709_551_616 in
    if leb bits int64_max then pos bits else negsuc (18_446_744_073_709_551_615 - bits)

-- An entry that is left out where the number is 0.
abbrev pub number_entry : String → ℤ → List (String × Value)
number_entry key (pos zero) = []
number_entry key n = (key, number (int_text n)) ∷ []

-- A positive timeout in milliseconds; the product wraps around.
abbrev pub timeout_entry : ℤ → List (String × Value)
timeout_entry (pos (suc n)) = number_entry "timeout" (wrap_int (suc n * 1000))
timeout_entry _ = []

abbrev pub allow_all : List String → List String
allow_all [] = "*" ∷ []
allow_all (t ∷ ts) = t ∷ ts

abbrev pub allow_tools : String → List String → Dict String → Dict String
allow_tools name [] permission = permission
allow_tools name (t ∷ ts) permission =
    allow_tools name ts (insert (cat name (cat "_" t)) "allow" permission)

unfoldable pub permissions : Dict TargetSpec → Dict String → Dict String
permissions [] permission = permission
permissions ((name, spec) ∷ d) permission =
    permissions d (allow_tools name (allow_all spec.always_allow) permission)

module _ (env : Env) where
  abbrev pub shown : List Value → List String
  shown args = map env.show args

  unfoldable pub json_server : TargetSpec → Value
  json_server spec =
      fields (
        ("command", str spec.command) ∷ ("args", strs (shown spec.args)) ∷ env_entry "env" spec.env)

  -- What a map of servers becomes; a map, so in any order.
  abbrev pub servers_with : (TargetSpec → Value) → Dict TargetSpec → Members
  servers_with f [] = no_members
  servers_with f ((name, spec) ∷ d) = with_member name (f spec) (servers_with f d)

  unfoldable pub json_config : Dict TargetSpec → Value
  unfolding json_server
  json_config specs = fields (("mcpServers", object (servers_with json_server specs)) ∷ [])

  unfoldable pub kilo_server : TargetSpec → Value
  unfolding wrap_int
  kilo_server spec = fields (
      ("type", str "local")
      ∷ ("command", strs (spec.command ∷ shown spec.args))
      ∷ (env_entry "environment" spec.env ++ ("enabled", truth true) ∷ timeout_entry spec.timeout))

  unfoldable pub kilo_config : Dict TargetSpec → Value
  unfolding kilo_server permissions
  kilo_config specs = fields (
      ("$schema", str "https://app.kilo.ai/config.json")
      ∷ ("mcp", object (servers_with kilo_server specs))
      ∷ env_entry "permission" (some (permissions specs [])))

-- `quote` is the format %q, `json_args` and `json_list` are json.Marshal on a slice.
module _ (quote : String → String) (json_args : List Value → String)
    (json_list : List String → String) where
  abbrev pub line_if : Bool → String → String → String
  line_if true key value = ""
  line_if false key value = texts (key ∷ " = " ∷ value ∷ "\n" ∷ [])

  abbrev pub timeout_line : ℤ → String
  timeout_line (pos (suc n)) = line_if false "timeout" (itoa (suc n))
  timeout_line _ = ""

  abbrev pub allow_line : List String → String
  allow_line [] = ""
  allow_line (t ∷ ts) = line_if false "always_allow" (json_list (t ∷ ts))

  abbrev pub value_at : Dict String → String → String
  value_at d k = elim (lookup k d) [ none ↦ "" | some v ↦ v ]

  abbrev pub env_lines : Dict String → List String → String
  env_lines d [] = ""
  env_lines d (k ∷ ks) = cat (line_if false k (quote (value_at d k))) (env_lines d ks)

  abbrev pub dict_names {ℓ} : {V : Type ℓ} → Dict V → List String
  dict_names [] = []
  dict_names ((k, v) ∷ d) = k ∷ dict_names d

  unfoldable pub toml_env : String → Option (Dict String) → String
  unfolding sort_strings
  toml_env name none = ""
  toml_env name (some []) = ""
  toml_env name (some (e ∷ d)) =
      cat (texts ("[mcp_servers." ∷ name ∷ ".env]\n" ∷ []))
        (env_lines (e ∷ d) (sort_strings (dict_names (e ∷ d))))

  unfoldable pub toml_server : String → TargetSpec → String
  unfolding toml_env
  toml_server name spec = texts (
      "[mcp_servers."
      ∷ name
      ∷ "]\n"
      ∷ line_if false "command" (quote spec.command)
      ∷ line_if false "args" (json_args spec.args)
      ∷ line_if (str_eq spec.description "") "description" (quote spec.description)
      ∷ line_if (str_eq spec.hint "") "hint" (quote spec.hint)
      ∷ timeout_line spec.timeout
      ∷ allow_line spec.always_allow
      ∷ toml_env name spec.env
      ∷ "\n"
      ∷ [])

  abbrev pub server_text : String → Option TargetSpec → String
  server_text name none = ""
  server_text name (some spec) = toml_server name spec

  abbrev pub toml_servers : Dict TargetSpec → List String → String
  toml_servers d [] = ""
  toml_servers d (name ∷ names) = cat (server_text name (lookup name d)) (toml_servers d names)

  unfoldable pub toml_config : String → Dict TargetSpec → String
  unfolding toml_server sort_strings
  toml_config target specs = texts (
      "# Generated MCP configuration for "
      ∷ target
      ∷ "\n"
      ∷ "# Source: registry.yaml\n\n"
      ∷ toml_servers specs (sort_strings (dict_names specs))
      ∷ [])
