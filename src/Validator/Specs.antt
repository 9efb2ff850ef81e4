-- ===== src/Validator/Specs.antt =====
-- The servers of the three formats of pkg/validator/runtime.go, and validateServerSpec. A map is gone
-- through in some order.
use fi_mcp_kit.Base.{String, Option, none, some, List, [], ◌∷◌, cat, str_eq, if◌then◌else◌}
use fi_mcp_kit.Base.Dict.{Dict}
use fi_mcp_kit.Base.Value.{
  Value, str, object, array, Members, no_members, with_member, Elements, no_elements, with_element,
  member,
}
use fi_mcp_kit.Validator.Json.{Parsed, parse_error, parsed, as_object, text_at, each_server}
use fi_mcp_kit.Validator.Formats.{TomlServer}
use fi_mcp_kit.Validator.Result.{ValidationResult}
use fi_mcp_kit.Validator.Runtime.{
  Machine, validate_command, check_command, validate_env, validate_args, as_array,
}

abbrev pub env_part : String → Option Members → ValidationResult → ValidationResult
env_part field none r = r
env_part field (some env) r = validate_env field env r

abbrev pub args_part : String → Option Elements → ValidationResult → ValidationResult
args_part field none r = r
args_part field (some args) r = validate_args field args r

abbrev pub check_servers :
    (String → Members → ValidationResult → ValidationResult)
    → String
    → Option Members
    → ValidationResult
    → ValidationResult
check_servers check root none r = r
check_servers check root (some servers) r = each_server check root servers r

abbrev pub runtime_of :
    (String → Members → ValidationResult → ValidationResult)
    → String
    → Parsed Value
    → ValidationResult
    → ValidationResult
runtime_of check root (parsed (object m)) r = check_servers check root (as_object (member root m)) r
runtime_of check root _ r = r

-- The command array, split into the command and its arguments, where there are any.
abbrev pub kilo_command : Option Value → String
kilo_command (some (array (with_element (str s) vs))) = s
kilo_command _ = ""

abbrev pub kilo_args : Option Value → Option Elements
kilo_args (some (array (with_element v (with_element w vs)))) = some (with_element w vs)
kilo_args _ = none

abbrev pub texts_of : List String → Elements
texts_of [] = no_elements
texts_of (a ∷ l) = with_element (str a) (texts_of l)

abbrev pub args_of : List String → Option Elements
args_of [] = none
args_of (a ∷ l) = some (texts_of (a ∷ l))

abbrev pub members_of : Dict String → Members
members_of [] = no_members
members_of ((k, v) ∷ d) = with_member k (str v) (members_of d)

module _ (machine : Machine) where
  -- What the three formats give: the command, or no text, and the environment and the arguments.
  abbrev pub check_parts :
      String → String → Option Members → Option Elements → ValidationResult → ValidationResult
  check_parts field cmd env args r =
      args_part (cat field ".args") args
        (env_part (cat field ".env") env (check_command machine (cat field ".command") cmd r))

  unfoldable pub validate_server_spec : String → Members → ValidationResult → ValidationResult
  unfolding validate_command validate_env validate_args
  validate_server_spec field server r =
      check_parts field (text_at "command" server) (as_object (member "env" server))
        (as_array (member "args" server)) r

  unfoldable pub validate_json_runtime :
      (String → Parsed Value) → String → ValidationResult → ValidationResult
  unfolding validate_server_spec
  validate_json_runtime decode content r =
      runtime_of validate_server_spec "mcpServers" (decode content) r

  unfoldable pub check_kilo_spec : String → Members → ValidationResult → ValidationResult
  unfolding validate_command validate_env validate_args
  check_kilo_spec field server r =
      if str_eq (text_at "type" server) "remote"
      then r
      else check_parts field (kilo_command (member "command" server))
          (as_object (member "environment" server)) (kilo_args (member "command" server)) r

  unfoldable pub validate_kilo_runtime :
      (String → Parsed Value) → String → ValidationResult → ValidationResult
  unfolding check_kilo_spec
  validate_kilo_runtime decode content r = runtime_of check_kilo_spec "mcp" (decode content) r

  unfoldable pub check_toml_specs : Dict TomlServer → ValidationResult → ValidationResult
  unfolding validate_command validate_env validate_args
  check_toml_specs [] r = r
  check_toml_specs ((name, s) ∷ others) r =
      check_toml_specs others (
        check_parts (cat "mcp_servers." name) s.command (some (members_of s.env)) (args_of s.args)
          r)

  abbrev pub toml_runtime_of : Parsed (Dict TomlServer) → ValidationResult → ValidationResult
  toml_runtime_of (parse_error text) r = r
  toml_runtime_of (parsed servers) r = check_toml_specs servers r

  unfoldable pub validate_toml_runtime :
      (String → Parsed (Dict TomlServer)) → String → ValidationResult → ValidationResult
  unfolding check_toml_specs
  validate_toml_runtime decode content r = toml_runtime_of (decode content) r
