-- ===== src/Validator/ContentLaws.antt =====
-- When ValidateContent of pkg/validator/validator.go calls a file valid, for every target, and what it
-- does not look at.
use fi_mcp_kit.Base.{
  ◌≡◌, refl, ◌∙◌, String, Bool, true, false, ◌&&◌, none, some, [], ◌∷◌, arith, str_eq, cat,
  if◌then◌else◌, contains,
}
use fi_mcp_kit.Base.Dict.{Dict}
use fi_mcp_kit.Base.Value.{object, Members, member}
use fi_mcp_kit.Validator.Result.{ValidationResult, new_result, has_errors, code_invalid_schema}
use fi_mcp_kit.Validator.Json.{
  Parsed, parse_error, parsed, accepted, json_servers, validate_json_semantics,
  validate_json_schema,
}
use fi_mcp_kit.Validator.Formats.{
  TomlServer, validate_toml_structure, validate_kilo_semantics, validate_kilo_json, is_json_target,
  is_toml_target,
}
use fi_mcp_kit.Validator.Runtime.{Machine}
use fi_mcp_kit.Validator.Specs.{
  args_of, members_of, check_parts, validate_json_runtime, validate_server_spec, check_kilo_spec,
  validate_kilo_runtime, check_toml_specs, toml_runtime_of, validate_toml_runtime,
}
use fi_mcp_kit.Validator.Dispatch.{Decoders, check_content, validate_content}
use fi_mcp_kit.Validator.Adds.{
  Adds, Adds-nothing, Adds-add_warning, Adds-then, Adds-if, all_servers, set_valid_lem,
}
use fi_mcp_kit.Validator.Accepts.{
  json_ok, server_ok, validate_json_semantics-Adds, kilo_ok, validate_kilo_semantics-Adds,
}
use fi_mcp_kit.Validator.SpecAccepts.{
  document_ok, checked_with-Adds, toml_passes, check_toml-Adds, parts_ok, check_parts-Adds, spec_ok,
  kilo_spec_ok, validate_server_spec-Adds, check_kilo_spec-Adds, runs, runtime_of-Adds,
}

module _ (machine : Machine) where
  abbrev pub toml_specs_ok : Dict TomlServer → Bool
  toml_specs_ok [] = true
  toml_specs_ok ((name, s) ∷ others) =
      parts_ok machine s.command (some (members_of s.env)) && toml_specs_ok others

  abbrev pub toml_runs : Parsed (Dict TomlServer) → Bool
  toml_runs (parse_error text) = true
  toml_runs (parsed servers) = toml_specs_ok servers

  check_toml_specs-Adds :
      (d : Dict TomlServer) (r : ValidationResult)
      → Adds r (check_toml_specs machine d r) (toml_specs_ok d)
  unfolding check_toml_specs
  check_toml_specs-Adds [] r = Adds-nothing r
  check_toml_specs-Adds ((name, s) ∷ others) r =
      let field = cat "mcp_servers." name in
      let env = some (members_of s.env) in
      let r' = check_parts machine field s.command env (args_of s.args) r in
      Adds-then r r' (check_toml_specs machine others r') (parts_ok machine s.command env)
        (toml_specs_ok others) (check_parts-Adds machine field s.command env (args_of s.args) r)
        (check_toml_specs-Adds others r')

  toml_runtime_of-Adds :
      (p : Parsed (Dict TomlServer)) (r : ValidationResult)
      → Adds r (toml_runtime_of machine p r) (toml_runs p)
  toml_runtime_of-Adds (parse_error text) r = Adds-nothing r
  toml_runtime_of-Adds (parsed servers) r = check_toml_specs-Adds servers r

  module _ (d : Decoders) where
    -- What a file of each kind of target must be, to be valid.
    abbrev pub json_valid : String → Bool
    json_valid text =
        document_ok d.mcp_schema json_ok (d.json text)
        && runs machine (spec_ok machine) "mcpServers" (d.json text)

    abbrev pub kilo_valid : String → Bool
    kilo_valid text =
        document_ok d.kilo_schema (kilo_ok d.floats) (d.json text)
        && runs machine (kilo_spec_ok machine) "mcp" (d.json text)

    abbrev pub toml_valid : String → Bool
    toml_valid text = toml_passes (d.toml text) && toml_runs (d.toml text)

    abbrev pub content_ok : String → String → Bool
    content_ok target text =
        if str_eq target "kilocode"
        then kilo_valid text
        else if contains ("claude" ∷ "claude_desktop" ∷ "vscode" ∷ "antigravity" ∷ "kilocode" ∷ [])
            target
        then json_valid text
        else if contains ("codex" ∷ "gemini" ∷ []) target
        then toml_valid text
        else true

    module _ (target file text : String) where
      started_clean : has_errors (new_result target file) ≡ false
      unfolding has_errors
      started_clean = refl

      json-Adds :
          Adds
            (new_result target file)
            (validate_json_runtime machine d.json text
              (validate_json_schema d.json d.mcp_schema target file text))
            (json_valid text)
      unfolding validate_json_runtime validate_json_schema
      json-Adds =
          Adds-then (new_result target file)
            (validate_json_schema d.json d.mcp_schema target file text) _ _ _
            (checked_with-Adds d.mcp_schema validate_json_semantics json_ok
              validate_json_semantics-Adds (d.json text) (new_result target file))
            (runtime_of-Adds machine (validate_server_spec machine) (spec_ok machine)
              (validate_server_spec-Adds machine) "mcpServers" (d.json text) _)

      kilo-Adds :
          Adds
            (new_result target file)
            (validate_kilo_runtime machine d.json text
              (validate_kilo_json d.floats d.json d.kilo_schema target file text))
            (kilo_valid text)
      unfolding validate_kilo_runtime validate_kilo_json
      kilo-Adds =
          Adds-then (new_result target file)
            (validate_kilo_json d.floats d.json d.kilo_schema target file text) _ _ _
            (checked_with-Adds d.kilo_schema (validate_kilo_semantics d.floats) (kilo_ok d.floats)
              (validate_kilo_semantics-Adds d.floats) (d.json text) (new_result target file))
            (runtime_of-Adds machine (check_kilo_spec machine) (kilo_spec_ok machine)
              (check_kilo_spec-Adds machine) "mcp" (d.json text) _)

      toml-Adds :
          Adds
            (new_result target file)
            (validate_toml_runtime machine d.toml text
              (validate_toml_structure d.toml target file text))
            (toml_valid text)
      unfolding validate_toml_runtime validate_toml_structure
      toml-Adds =
          Adds-then (new_result target file) (validate_toml_structure d.toml target file text) _ _ _
            (check_toml-Adds (d.toml text) (new_result target file))
            (toml_runtime_of-Adds (d.toml text) _)

      -- ValidateContent calls a file valid exactly in these cases. A file of target kilocode parses, its
      -- schema accepts it, and, if it is an object, it has a map of servers under "mcp" and those of them
      -- that are objects are well formed; of these, where they are not remote, no command that is looked
      -- up is without the permission to execute and no text in the environment matches a pattern of a
      -- secret. A file of another JSON target parses, its schema accepts it, and, if it is an object, it
      -- has a map of servers under "mcpServers", or else under "servers", whose objects are well formed;
      -- the same of commands and environments holds for servers under "mcpServers", while those under
      -- "servers" are not asked. A TOML file parses and has servers, each with a command, no negative
      -- timeout, and the same of its command and environment. A file of any other target is valid. A
      -- command is looked up if it has no token and is an absolute path once it is resolved.
      pub validate_content-valid :
          (validate_content machine d target file text).valid ≡ content_ok target text
      unfolding validate_content is_json_target is_toml_target
      validate_content-valid =
          set_valid_lem (new_result target file) (check_content machine d target file text)
            (content_ok target text) started_clean
            (Adds-if (new_result target file) (str_eq target "kilocode") _ _ _ _ kilo-Adds (
              Adds-if (new_result target file) _ _ _ _ _ json-Adds (
                Adds-if (new_result target file) _ _ _ _ _ toml-Adds (
                  Adds-add_warning (new_result target file) code_invalid_schema ""
                    "unknown target format, skipping validation"))))

    servers_under :
        (m servers : Members)
        → member "mcpServers" m ≡ none
        → member "servers" m ≡ some (object servers)
        → json_servers m ≡ some ("servers", servers)
    unfolding json_servers
    servers_under m servers a b = ground (arith, a, b)

    -- A file of one of the JSON targets other than kilocode whose servers stand under "servers", without a
    -- key "mcpServers", is valid once the schema accepts it and each server is well formed: neither
    -- its commands nor the values of its environments are looked at, be they secrets or not.
    pub validate_content-unchecked :
        (target file text : String) {m servers : Members}
        → str_eq target "kilocode" ≡ false
        → is_json_target target ≡ true
        → d.json text ≡ parsed (object m)
        → d.mcp_schema (object m) ≡ accepted
        → member "mcpServers" m ≡ none
        → member "servers" m ≡ some (object servers)
        → all_servers server_ok servers ≡ true
        → (validate_content machine d target file text).valid ≡ true
    unfolding is_json_target
    validate_content-unchecked target file text {m} {servers} other kind e v a b ok =
        validate_content-valid target file text
        ∙ rw (other, kind, e, v, a, servers_under m servers a b) (ground (arith, ok))
