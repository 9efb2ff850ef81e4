-- ===== src/Validator/Formats.antt =====
-- The other checks of pkg/validator/schema.go: TOML files, Kilo's kilo.json, settings against a
-- vendored schema, and which target has which format.
use fi_mcp_kit.Base.{
  suc, String, Bool, true, false, Option, none, some, List, [], ◌∷◌, cat, str_eq, contains,
  if◌then◌else◌,
}
use fi_mcp_kit.Base.Dict.{Dict}
use fi_mcp_kit.Base.Decimal.{itoa}
use fi_mcp_kit.Base.Int.{ℤ, pos, negsuc}
use fi_mcp_kit.Base.Value.{Value, str, number, object, array, Members, with_element, member}
use fi_mcp_kit.Validator.Json.{
  Parsed, parse_error, parsed, Verdict, report, add_when, as_object, text_at, wrong_kind, is_object,
  each_server, invalid_json, checked_with,
}
use fi_mcp_kit.Validator.Result.{
  ValidationResult, new_result, add_error, add_warning, set_valid, code_invalid_schema,
  code_missing_root_key, code_missing_command, code_invalid_env_type, code_invalid_timeout,
  code_upstream_schema,
}

-- A server of a TOML file, as far as the checks read it.
pub record TomlServer : Type 0 where
  pub command : String
  pub args : List String
  pub timeout : ℤ
  pub env : Dict String

abbrev pub is_negative : ℤ → Bool
is_negative (pos n) = false
is_negative (negsuc n) = true

abbrev pub int_text : ℤ → String
int_text (pos n) = itoa n
int_text (negsuc n) = cat "-" (itoa (suc n))

unfoldable pub check_toml_server : String → TomlServer → ValidationResult → ValidationResult
check_toml_server field server r =
    let r =
      add_when (str_eq server.command "") code_missing_command (cat field ".command")
        "command is required" r in
    add_when (is_negative server.timeout) code_invalid_timeout (cat field ".timeout")
      (cat "timeout must be non-negative, got " (int_text server.timeout)) r

unfoldable pub check_toml_servers : Dict TomlServer → ValidationResult → ValidationResult
unfolding check_toml_server
check_toml_servers [] r = r
check_toml_servers ((name, server) ∷ others) r =
    check_toml_servers others (check_toml_server (cat "mcp_servers." name) server r)

abbrev pub check_toml : Parsed (Dict TomlServer) → ValidationResult → ValidationResult
check_toml (parse_error text) r =
    record (add_error code_invalid_schema "" (cat "invalid TOML: " text) r) { valid = false }
check_toml (parsed []) r =
    record (add_error code_missing_root_key "" "missing or empty mcp_servers section" r) {
      valid = false;
    }
check_toml (parsed (s ∷ servers)) r = set_valid (check_toml_servers (s ∷ servers) r)

unfoldable pub validate_toml_structure :
    (String → Parsed (Dict TomlServer)) → String → String → String → ValidationResult
unfolding check_toml_servers
validate_toml_structure decode target file content =
    check_toml (decode content) (new_result target file)

-- A number of JSON is kept by its literal: whether its float64 is below 0, and its int.
pub record Floats : Type 0 where
  pub negative : String → Bool
  pub int_part : String → String

-- The first element of a command, where there is one and it is a text.
abbrev pub first_text : Option Value → Option String
first_text (some (array (with_element (str s) vs))) = some s
first_text (some (array (with_element v vs))) = some ""
first_text _ = none

module _ (floats : Floats) where
  abbrev pub negative_timeout : Option Value → Option String
  negative_timeout (some (number n)) = if floats.negative n then some (floats.int_part n) else none
  negative_timeout _ = none

  abbrev pub check_timeout : String → Option String → ValidationResult → ValidationResult
  check_timeout field none r = r
  check_timeout field (some n) r =
      add_error code_invalid_timeout field (cat "timeout must be non-negative, got " n) r

  abbrev pub check_local : String → Option String → ValidationResult → ValidationResult
  check_local field none r =
      add_error code_missing_command field "command must be a non-empty array" r
  check_local field (some s) r =
      add_when (str_eq s "") code_missing_command field "command[0] must be a non-empty string" r

  unfoldable pub check_kilo_server : String → Members → ValidationResult → ValidationResult
  check_kilo_server field server r =
      let r =
        if str_eq (text_at "type" server) "remote"
        then add_when (str_eq (text_at "url" server) "") code_missing_command (cat field ".url")
            "url is required for remote servers" r
        else check_local (cat field ".command") (first_text (member "command" server)) r in
      let r =
        add_when (wrong_kind is_object (member "environment" server)) code_invalid_env_type
          (cat field ".environment") "environment must be an object" r in
      check_timeout (cat field ".timeout") (negative_timeout (member "timeout" server)) r

  abbrev pub check_mcp : Option Members → ValidationResult → ValidationResult
  check_mcp none r = add_error code_missing_root_key "" "missing or invalid mcp key" r
  check_mcp (some servers) r = each_server check_kilo_server "mcp" servers r

  unfoldable pub validate_kilo_semantics : Value → ValidationResult → ValidationResult
  unfolding check_kilo_server each_server
  validate_kilo_semantics (object m) r = check_mcp (as_object (member "mcp" m)) r
  validate_kilo_semantics _ r = r

  unfoldable pub validate_kilo_json :
      (String → Parsed Value) → (Value → Verdict) → String → String → String → ValidationResult
  unfolding validate_kilo_semantics report
  validate_kilo_json decode schema target file content =
      checked_with schema validate_kilo_semantics (decode content) (new_result target file)

-- A schema check whose findings are warnings.
abbrev pub warned_by :
    (String → ValidationResult → ValidationResult)
    → (Value → Verdict)
    → Parsed Value
    → ValidationResult
    → ValidationResult
warned_by invalid schema (parse_error text) r = invalid text r
warned_by invalid schema (parsed v) r =
    set_valid (report (add_warning code_upstream_schema) (schema v) r)

unfoldable pub validate_upstream_json :
    (String → Parsed Value) → (Value → Verdict) → String → String → String → ValidationResult
unfolding report
validate_upstream_json decode schema target file content =
    warned_by invalid_json schema (decode content) (new_result target file)

unfoldable pub validate_claude_settings :
    (String → Parsed Value) → (Value → Verdict) → String → String → ValidationResult
validate_claude_settings decode schema file content =
    validate_upstream_json decode schema "claude" file content

unfoldable pub validate_gemini_settings :
    (String → Parsed Value) → (Value → Verdict) → String → String → ValidationResult
validate_gemini_settings decode schema file content =
    validate_upstream_json decode schema "gemini" file content

abbrev pub invalid_toml : String → ValidationResult → ValidationResult
invalid_toml text r = record (add_error code_invalid_schema "" (cat "invalid TOML: " text) r) {
  valid = false;
}

-- `decode` is toml.Unmarshal into a generic map.
unfoldable pub validate_codex_config :
    (String → Parsed Value) → (Value → Verdict) → String → String → ValidationResult
unfolding report
validate_codex_config decode schema file content =
    warned_by invalid_toml schema (decode content) (new_result "codex" file)

unfoldable pub is_json_target : String → Bool
is_json_target target =
    contains ("claude" ∷ "claude_desktop" ∷ "vscode" ∷ "antigravity" ∷ "kilocode" ∷ []) target

unfoldable pub is_toml_target : String → Bool
is_toml_target target = contains ("codex" ∷ "gemini" ∷ []) target
