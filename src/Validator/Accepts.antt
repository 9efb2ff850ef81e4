-- ===== src/Validator/Accepts.antt =====
-- When the checks of pkg/validator find no error: a description of the documents that pass, and that
-- each check adds an error exactly to the others.
use fi_mcp_kit.Base.{
  ◌≡◌, refl, String, Bool, true, false, not, ◌&&◌, Option, none, some, [], ◌∷◌, arith, str_eq, cat,
  if◌then◌else◌,
}
use fi_mcp_kit.Base.Dict.{Dict}
use fi_mcp_kit.Base.Value.{Value, nil_value, object, Members, member}
use fi_mcp_kit.Validator.Result.{
  ValidationResult, code_missing_command, code_invalid_args_type, code_invalid_env_type,
  code_invalid_timeout, code_missing_root_key,
}
use fi_mcp_kit.Validator.Json.{
  add_when, text_at, wrong_kind, is_array, is_object, as_object, check_server, json_servers,
  check_root, validate_json_semantics,
}
use fi_mcp_kit.Validator.Formats.{
  TomlServer, Floats, is_negative, int_text, check_toml_server, check_toml_servers, first_text,
  negative_timeout, check_timeout, check_local, check_kilo_server, check_mcp,
  validate_kilo_semantics,
}
use fi_mcp_kit.Validator.Adds.{
  Adds, Adds-nothing, Adds-add_error, Adds-add_when, Adds-then, Adds-if, all_servers,
  each_server-Adds,
}

-- An entry that is absent or of the kind.
abbrev pub absent_or : (Value → Bool) → Option Value → Bool
absent_or kind none = true
absent_or kind (some v) = kind v

not-wrong_kind :
    (kind : Value → Bool) (o : Option Value) → not (wrong_kind kind o) ≡ absent_or kind o
not-wrong_kind kind none = refl
not-wrong_kind kind (some v) = ground arith

-- A server of an mcp.json: a command that is not empty, args that are an array and env that is an
-- object, where they are there.
abbrev pub server_ok : Members → Bool
server_ok s =
    not (str_eq (text_at "command" s) "")
    && absent_or is_array (member "args" s)
    && absent_or is_object (member "env" s)

check_server-Adds :
    (field : String) (s : Members) (r : ValidationResult)
    → Adds r (check_server field s r) (server_ok s)
unfolding check_server
check_server-Adds field s r =
    let no_command = str_eq (text_at "command" s) "" in
    let no_args = wrong_kind is_array (member "args" s) in
    let no_env = wrong_kind is_object (member "env" s) in
    let r1 =
      add_when no_command code_missing_command (cat field ".command") "command is required" r in
    let r2 =
      add_when no_args code_invalid_args_type (cat field ".args") "args must be an array" r1 in
    ground (
      arith,
      Adds-add_when r no_command code_missing_command (cat field ".command") "command is required",
      Adds-add_when r1 no_args code_invalid_args_type (cat field ".args") "args must be an array",
      Adds-add_when r2 no_env code_invalid_env_type (cat field ".env") "env must be an object",
      not-wrong_kind is_array (member "args" s),
      not-wrong_kind is_object (member "env" s),
    )

abbrev pub root_ok : Option (String × Members) → Bool
root_ok none = false
root_ok (some (root, servers)) = all_servers server_ok servers

-- A document that is an object has servers under one of the two keys, and each that is an object is
-- in order.
abbrev pub json_ok : Value → Bool
json_ok (object m) = root_ok (json_servers m)
json_ok _ = true

check_root-Adds :
    (o : Option (String × Members)) (r : ValidationResult) → Adds r (check_root o r) (root_ok o)
check_root-Adds none r =
    Adds-add_error r code_missing_root_key "" "missing or invalid mcpServers/servers key"
check_root-Adds (some (root, servers)) r =
    each_server-Adds check_server server_ok check_server-Adds root servers r

pub validate_json_semantics-Adds :
    (v : Value) (r : ValidationResult) → Adds r (validate_json_semantics v r) (json_ok v)
unfolding validate_json_semantics
validate_json_semantics-Adds (object m) r = check_root-Adds (json_servers m) r
validate_json_semantics-Adds nil_value r = Adds-nothing r
validate_json_semantics-Adds v r = Adds-nothing r

-- A server of a TOML file.
abbrev pub toml_server_ok : TomlServer → Bool
toml_server_ok s = not (str_eq s.command "") && not (is_negative s.timeout)

abbrev pub toml_servers_ok : Dict TomlServer → Bool
toml_servers_ok [] = true
toml_servers_ok ((name, s) ∷ others) = toml_server_ok s && toml_servers_ok others

check_toml_server-Adds :
    (field : String) (s : TomlServer) (r : ValidationResult)
    → Adds r (check_toml_server field s r) (toml_server_ok s)
unfolding check_toml_server
check_toml_server-Adds field s r =
    let no_command = str_eq s.command "" in
    let r1 =
      add_when no_command code_missing_command (cat field ".command") "command is required" r in
    let text = cat "timeout must be non-negative, got " (int_text s.timeout) in
    ground (
      arith,
      Adds-add_when r no_command code_missing_command (cat field ".command") "command is required",
      Adds-add_when r1 (is_negative s.timeout) code_invalid_timeout (cat field ".timeout") text,
    )

pub check_toml_servers-Adds :
    (d : Dict TomlServer) (r : ValidationResult)
    → Adds r (check_toml_servers d r) (toml_servers_ok d)
unfolding check_toml_servers
check_toml_servers-Adds [] r = Adds-nothing r
check_toml_servers-Adds ((name, s) ∷ others) r =
    let field = cat "mcp_servers." name in
    let r' = check_toml_server field s r in
    Adds-then r r' (check_toml_servers others r') (toml_server_ok s) (toml_servers_ok others)
      (check_toml_server-Adds field s r) (check_toml_servers-Adds others r')

abbrev pub is_named : Option String → Bool
is_named none = false
is_named (some s) = not (str_eq s "")

module _ (floats : Floats) where
  abbrev pub is_none : Option String → Bool
  is_none none = true
  is_none (some s) = false

  -- A server of a kilo.json: a remote one has a url, any other a command array whose first element is
  -- a text that is not empty; the environment is an object and the timeout not negative, where they
  -- are there.
  abbrev pub kilo_server_ok : Members → Bool
  kilo_server_ok s =
      (if str_eq (text_at "type" s) "remote"
        then not (str_eq (text_at "url" s) "")
        else is_named (first_text (member "command" s)))
      && absent_or is_object (member "environment" s)
      && is_none (negative_timeout floats (member "timeout" s))

  check_local-Adds :
      (field : String) (o : Option String) (r : ValidationResult)
      → Adds r (check_local floats field o r) (is_named o)
  check_local-Adds field none r =
      Adds-add_error r code_missing_command field "command must be a non-empty array"
  check_local-Adds field (some s) r =
      Adds-add_when r (str_eq s "") code_missing_command field
        "command[0] must be a non-empty string"

  check_timeout-Adds :
      (field : String) (o : Option String) (r : ValidationResult)
      → Adds r (check_timeout floats field o r) (is_none o)
  check_timeout-Adds field none r = Adds-nothing r
  check_timeout-Adds field (some n) r =
      Adds-add_error r code_invalid_timeout field (cat "timeout must be non-negative, got " n)

  check_kilo_server-Adds :
      (field : String) (s : Members) (r : ValidationResult)
      → Adds r (check_kilo_server floats field s r) (kilo_server_ok s)
  unfolding check_kilo_server
  check_kilo_server-Adds field s r =
      let remote = str_eq (text_at "type" s) "remote" in
      let no_url = str_eq (text_at "url" s) "" in
      let first = first_text (member "command" s) in
      let no_env = wrong_kind is_object (member "environment" s) in
      let limit = negative_timeout floats (member "timeout" s) in
      let x =
        add_when no_url code_missing_command (cat field ".url") "url is required for remote servers"
          r in
      let y = check_local floats (cat field ".command") first r in
      let r1 = if remote then x else y in
      let r2 =
        add_when no_env code_invalid_env_type (cat field ".environment")
          "environment must be an object" r1 in
      ground (
        arith,
        Adds-if r remote x y (not no_url) (is_named first)
            (Adds-add_when r no_url code_missing_command (cat field ".url")
              "url is required for remote servers")
            (check_local-Adds (cat field ".command") first r),
        Adds-add_when r1 no_env code_invalid_env_type (cat field ".environment")
            "environment must be an object",
        not-wrong_kind is_object (member "environment" s),
        check_timeout-Adds (cat field ".timeout") limit r2,
      )

  abbrev pub mcp_ok : Option Members → Bool
  mcp_ok none = false
  mcp_ok (some servers) = all_servers kilo_server_ok servers

  abbrev pub kilo_ok : Value → Bool
  kilo_ok (object m) = mcp_ok (as_object (member "mcp" m))
  kilo_ok _ = true

  check_mcp-Adds :
      (o : Option Members) (r : ValidationResult) → Adds r (check_mcp floats o r) (mcp_ok o)
  check_mcp-Adds none r = Adds-add_error r code_missing_root_key "" "missing or invalid mcp key"
  check_mcp-Adds (some servers) r =
      each_server-Adds (check_kilo_server floats) kilo_server_ok check_kilo_server-Adds "mcp"
        servers r

  pub validate_kilo_semantics-Adds :
      (v : Value) (r : ValidationResult) → Adds r (validate_kilo_semantics floats v r) (kilo_ok v)
  unfolding validate_kilo_semantics
  validate_kilo_semantics-Adds (object m) r = check_mcp-Adds (as_object (member "mcp" m)) r
  validate_kilo_semantics-Adds nil_value r = Adds-nothing r
  validate_kilo_semantics-Adds v r = Adds-nothing r
