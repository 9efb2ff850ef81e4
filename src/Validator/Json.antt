-- ===== src/Validator/Json.antt =====
-- The structural checks of pkg/validator/schema.go on mcp.json files, and what encoding/json and the
-- JSON Schema library make of a file, as parameters. A map is gone through in some order.
use fi_mcp_kit.Base.{
  String, Bool, true, false, not, ◌&&◌, Option, none, some, List, [], ◌∷◌, ◌++◌, cat, str_eq,
  if◌then◌else◌,
}
use fi_mcp_kit.Base.Text.{contains_text}
use fi_mcp_kit.Base.Value.{
  Value, str, object, array, Members, no_members, with_member, Elements, no_elements, with_element,
  member, as_string,
}
use fi_mcp_kit.Validator.Result.{
  ValidationResult, new_result, add_error, set_valid, code_invalid_schema, code_missing_root_key,
  code_missing_command, code_invalid_args_type, code_invalid_env_type,
}

-- The result of a decoder, with the error's text.
pub data Parsed (A : Type 0) : Type 0 where
  parse_error : String → Parsed A
  parsed : A → Parsed A

-- jsonschema.ValidationError.
mutual
  pub data SchemaError : Type 0 where
    schema_error : (location message : String) (causes : Causes) → SchemaError

  pub data Causes : Type 0 where
    no_causes : Causes
    with_cause : SchemaError → Causes → Causes

-- What Validate of a schema says.
pub data Verdict : Type 0 where
  accepted : Verdict
  rejected : SchemaError → Verdict
  broken_schema : String → Verdict

abbrev pub leaf : String → String → Causes → List (String × String)
leaf location message no_causes = (location, message) ∷ []
leaf location message (with_cause e es) = []

-- The instance locations and messages of the leaves.
unfoldable mutual
  pub flatten : SchemaError → List (String × String)
  flatten (schema_error location message causes) =
      leaf location message causes ++ flatten_all causes

  pub flatten_all : Causes → List (String × String)
  flatten_all no_causes = []
  flatten_all (with_cause e es) = flatten e ++ flatten_all es

abbrev pub is_lookaround : Value → Bool
is_lookaround (str s) = contains_text s "(?"
is_lookaround _ = false

-- stripPatternsRecursive: the key "pattern" is deleted where its text has a group that begins "(?".
unfoldable mutual
  pub strip_patterns : Value → Value
  strip_patterns (object m) = object (strip_members m)
  strip_patterns (array vs) = array (strip_elements vs)
  strip_patterns v = v

  pub strip_members : Members → Members
  strip_members no_members = no_members
  strip_members (with_member k v m) =
      if str_eq k "pattern" && is_lookaround v
      then strip_members m
      else with_member k (strip_patterns v) (strip_members m)

  pub strip_elements : Elements → Elements
  strip_elements no_elements = no_elements
  strip_elements (with_element v vs) = with_element (strip_patterns v) (strip_elements vs)

abbrev or_data : String → Option String → String
or_data content none = content
or_data content (some out) = out

abbrev restripped : (Value → Option String) → String → Parsed Value → String
restripped encode content (parsed (object m)) = or_data content (encode (strip_patterns (object m)))
restripped encode content _ = content

-- stripNonRE2Patterns; null, which decodes to a nil map, is left to the schema compiler.
pub strip_non_re2_patterns : (String → Parsed Value) → (Value → Option String) → String → String
strip_non_re2_patterns decode encode content = restripped encode content (decode content)

abbrev pub or_slash : String → String
or_slash location = if str_eq location "" then "/" else location

abbrev pub Report : Type 0
Report = String → String → ValidationResult → ValidationResult

-- The loop over the flattened errors; `add` is AddError or AddWarning with its code.
unfoldable pub report_all : Report → List (String × String) → ValidationResult → ValidationResult
report_all add [] r = r
report_all add ((location, message) ∷ es) r = report_all add es (add (or_slash location) message r)

unfoldable pub report : Report → Verdict → ValidationResult → ValidationResult
unfolding report_all flatten
report add accepted r = r
report add (rejected e) r = report_all add (flatten e) r
report add (broken_schema text) r = add "" text r

abbrev pub as_object : Option Value → Option Members
as_object (some (object m)) = some m
as_object _ = none

-- v, _ := m[key].(string)
abbrev pub text_at : String → Members → String
text_at key m = elim (as_string (member key m)) [ none ↦ "" | some s ↦ s ]

abbrev pub is_array : Value → Bool
is_array (array vs) = true
is_array _ = false

abbrev pub is_object : Value → Bool
is_object (object m) = true
is_object _ = false

-- An entry that is there must be of the kind.
abbrev pub wrong_kind : (Value → Bool) → Option Value → Bool
wrong_kind kind none = false
wrong_kind kind (some v) = not (kind v)

abbrev pub add_when : Bool → String → String → String → ValidationResult → ValidationResult
add_when b code field message r = if b then add_error code field message r else r

unfoldable pub check_server : String → Members → ValidationResult → ValidationResult
check_server field server r =
    let r =
      add_when (str_eq (text_at "command" server) "") code_missing_command (cat field ".command")
        "command is required" r in
    let r =
      add_when (wrong_kind is_array (member "args" server)) code_invalid_args_type
        (cat field ".args") "args must be an array" r in
    add_when (wrong_kind is_object (member "env" server)) code_invalid_env_type (cat field ".env")
      "env must be an object" r

-- What a loop over servers does to each that is an object.
unfoldable pub each_server :
    (String → Members → ValidationResult → ValidationResult)
    → String
    → Members
    → ValidationResult
    → ValidationResult
each_server check root no_members r = r
each_server check root (with_member name (object s) others) r =
    each_server check root others (check (cat root (cat "." name)) s r)
each_server check root (with_member name _ others) r = each_server check root others r

-- The root key of a document, and its servers.
unfoldable pub json_servers : Members → Option (String × Members)
json_servers m = elim (as_object (member "mcpServers" m)) [
  | some servers ↦ some ("mcpServers", servers)
  | none ↦ elim (as_object (member "servers" m)) [
    | some servers ↦ some ("servers", servers)
    | none ↦ none
  ]
]

abbrev pub check_root : Option (String × Members) → ValidationResult → ValidationResult
check_root none r = add_error code_missing_root_key "" "missing or invalid mcpServers/servers key" r
check_root (some (root, servers)) r = each_server check_server root servers r

unfoldable pub validate_json_semantics : Value → ValidationResult → ValidationResult
unfolding check_server each_server json_servers
validate_json_semantics (object m) r = check_root (json_servers m) r
validate_json_semantics _ r = r

abbrev pub invalid_json : String → ValidationResult → ValidationResult
invalid_json text r = record (add_error code_invalid_schema "" (cat "invalid JSON: " text) r) {
  valid = false;
}

-- A schema check whose errors count, then the semantic one.
abbrev pub checked_with :
    (Value → Verdict)
    → (Value → ValidationResult → ValidationResult)
    → Parsed Value
    → ValidationResult
    → ValidationResult
checked_with schema semantics (parse_error text) r = invalid_json text r
checked_with schema semantics (parsed v) r =
    set_valid (semantics v (report (add_error code_invalid_schema) (schema v) r))

unfoldable pub validate_json_schema :
    (String → Parsed Value) → (Value → Verdict) → String → String → String → ValidationResult
unfolding validate_json_semantics report
validate_json_schema decode schema target file content =
    checked_with schema validate_json_semantics (decode content) (new_result target file)
