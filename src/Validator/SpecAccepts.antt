-- ===== src/Validator/SpecAccepts.antt =====
-- When the checks of one format of pkg/validator find no error: its document is well formed, and its
-- servers pass the runtime checks.
use fi_mcp_kit.Base.{
  String, Bool, true, false, ◌&&◌, Option, none, some, [], ◌∷◌, arith, str_eq, cat, if◌then◌else◌,
}
use fi_mcp_kit.Base.Dict.{Dict}
use fi_mcp_kit.Base.Value.{Value, nil_value, object, Members, Elements, member}
use fi_mcp_kit.Validator.Result.{
  ValidationResult, has_errors, set_valid, add_error, code_invalid_schema, code_missing_root_key,
}
use fi_mcp_kit.Validator.Json.{
  Parsed, parse_error, parsed, Verdict, report, text_at, as_object, checked_with,
}
use fi_mcp_kit.Validator.Formats.{TomlServer, check_toml_servers, check_toml}
use fi_mcp_kit.Validator.Specs.{
  env_part, check_parts, validate_server_spec, check_servers, runtime_of, kilo_command, kilo_args,
  check_kilo_spec,
}
use fi_mcp_kit.Validator.Adds.{
  Adds, Adds-nothing, Adds-add_error, Adds-then, Adds-if, all_servers, each_server-Adds,
  is_accepted, report-Adds,
}
use fi_mcp_kit.Validator.Accepts.{toml_servers_ok, check_toml_servers-Adds}
use fi_mcp_kit.Validator.RuntimeAccepts.{
  env_part_ok, env_part-Adds, args_part-Adds, command_ok, check_command-Adds,
}
use fi_mcp_kit.Validator.Runtime.{Machine, check_command, as_array}

abbrev pub document_ok : (Value → Verdict) → (Value → Bool) → Parsed Value → Bool
document_ok schema ok (parse_error text) = false
document_ok schema ok (parsed v) = is_accepted (schema v) && ok v

settled-Adds : (r r' : ValidationResult) (a : Bool) → Adds r r' a → Adds r (set_valid r') a
unfolding set_valid has_errors
settled-Adds r r' a h = h

pub checked_with-Adds :
    (schema : Value → Verdict) (semantics : Value → ValidationResult → ValidationResult)
    (ok : Value → Bool)
    → ((v : Value) (r : ValidationResult) → Adds r (semantics v r) (ok v))
    → (p : Parsed Value) (r : ValidationResult)
    → Adds r (checked_with schema semantics p r) (document_ok schema ok p)
unfolding has_errors
checked_with-Adds schema semantics ok h (parse_error text) r =
    unfold has_errors in Adds-add_error r code_invalid_schema "" (cat "invalid JSON: " text)
checked_with-Adds schema semantics ok h (parsed v) r =
    let r1 = report (add_error code_invalid_schema) (schema v) r in
    settled-Adds r (semantics v r1) (is_accepted (schema v) && ok v) (
      Adds-then r r1 (semantics v r1) (is_accepted (schema v)) (ok v)
        (report-Adds code_invalid_schema (schema v) r) (h v r1))

abbrev pub toml_passes : Parsed (Dict TomlServer) → Bool
toml_passes (parse_error text) = false
toml_passes (parsed []) = false
toml_passes (parsed (s ∷ servers)) = toml_servers_ok (s ∷ servers)

pub check_toml-Adds :
    (p : Parsed (Dict TomlServer)) (r : ValidationResult) → Adds r (check_toml p r) (toml_passes p)
unfolding has_errors
check_toml-Adds (parse_error text) r =
    Adds-add_error r code_invalid_schema "" (cat "invalid TOML: " text)
check_toml-Adds (parsed []) r =
    Adds-add_error r code_missing_root_key "" "missing or empty mcp_servers section"
check_toml-Adds (parsed (s ∷ servers)) r =
    settled-Adds r (check_toml_servers (s ∷ servers) r) (toml_servers_ok (s ∷ servers))
      (check_toml_servers-Adds (s ∷ servers) r)

module _ (machine : Machine) where
  abbrev pub parts_ok : String → Option Members → Bool
  parts_ok cmd env = command_ok machine cmd && env_part_ok env

  pub check_parts-Adds :
      (field cmd : String) (env : Option Members) (args : Option Elements) (r : ValidationResult)
      → Adds r (check_parts machine field cmd env args r) (parts_ok cmd env)
  check_parts-Adds field cmd env args r =
      let r1 = check_command machine (cat field ".command") cmd r in
      let r2 = env_part (cat field ".env") env r1 in
      ground (
        arith,
        check_command-Adds machine (cat field ".command") cmd r,
        env_part-Adds (cat field ".env") env r1,
        args_part-Adds (cat field ".args") args r2,
      )

  -- The runtime side of a server of an mcp.json and of a kilo.json.
  abbrev pub spec_ok : Members → Bool
  spec_ok s = parts_ok (text_at "command" s) (as_object (member "env" s))

  abbrev pub kilo_spec_ok : Members → Bool
  kilo_spec_ok s =
      if str_eq (text_at "type" s) "remote"
      then true
      else parts_ok (kilo_command (member "command" s)) (as_object (member "environment" s))

  pub validate_server_spec-Adds :
      (field : String) (s : Members) (r : ValidationResult)
      → Adds r (validate_server_spec machine field s r) (spec_ok s)
  unfolding validate_server_spec
  validate_server_spec-Adds field s r =
      check_parts-Adds field (text_at "command" s) (as_object (member "env" s))
        (as_array (member "args" s)) r

  pub check_kilo_spec-Adds :
      (field : String) (s : Members) (r : ValidationResult)
      → Adds r (check_kilo_spec machine field s r) (kilo_spec_ok s)
  unfolding check_kilo_spec
  check_kilo_spec-Adds field s r =
      Adds-if r (str_eq (text_at "type" s) "remote") _ _ _ _ (Adds-nothing r) (
        check_parts-Adds field (kilo_command (member "command" s))
          (as_object (member "environment" s)) (kilo_args (member "command" s)) r)

  abbrev pub servers_ok : (Members → Bool) → Option Members → Bool
  servers_ok ok none = true
  servers_ok ok (some servers) = all_servers ok servers

  -- The servers under a root key; a document without them is not looked at.
  abbrev pub runs : (Members → Bool) → String → Parsed Value → Bool
  runs ok root (parsed (object m)) = servers_ok ok (as_object (member root m))
  runs ok root _ = true

  module _ (check : String → Members → ValidationResult → ValidationResult) (ok : Members → Bool)
      (law : (field : String) (s : Members) (r : ValidationResult)
        → Adds r (check field s r) (ok s)) where
    check_servers-Adds :
        (root : String) (o : Option Members) (r : ValidationResult)
        → Adds r (check_servers check root o r) (servers_ok ok o)
    check_servers-Adds root none r = Adds-nothing r
    check_servers-Adds root (some m) r = each_server-Adds check ok law root m r

    pub runtime_of-Adds :
        (root : String) (p : Parsed Value) (r : ValidationResult)
        → Adds r (runtime_of check root p r) (runs ok root p)
    runtime_of-Adds root (parse_error text) r = Adds-nothing r
    runtime_of-Adds root (parsed (object m)) r =
        check_servers-Adds root (as_object (member root m)) r
    runtime_of-Adds root (parsed nil_value) r = Adds-nothing r
    runtime_of-Adds root (parsed v) r = Adds-nothing r
