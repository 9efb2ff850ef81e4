-- ===== src/Validator/RuntimeAccepts.antt =====
-- When the runtime checks of pkg/validator find no error: a command that exists is executable, and no
-- value of an environment is a secret. All else that they find is a warning.
use fi_mcp_kit.Base.{
  ℕ, ◌+◌, String, Bool, true, false, not, ◌&&◌, Option, none, some, [], ◌∷◌, str_eq, cat,
  if◌then◌else◌,
}
use fi_mcp_kit.Base.Decimal.{itoa}
use fi_mcp_kit.Base.Text.{has_prefix}
use fi_mcp_kit.Base.Value.{
  Value, nil_value, str, Members, no_members, with_member, Elements, no_elements, with_element,
}
use fi_mcp_kit.Validator.Result.{
  ValidationResult, texts, code_invalid_env_name, code_unresolved_token, code_command_not_found,
  code_command_not_executable, code_plaintext_secret,
}
use fi_mcp_kit.Validator.Pattern.{value_patterns, first_match}
use fi_mcp_kit.Validator.Runtime.{
  Stat, not_exist, stat_error, present, Machine, has_any, add_warning_when, is_env_name,
  report_secret, check_plaintext_secrets, check_value, validate_env, check_arg, args_from,
  validate_args, resolve_path, check_stat, validate_command, check_command,
}
use fi_mcp_kit.Validator.Specs.{env_part, args_part}
use fi_mcp_kit.Validator.Adds.{
  Adds, Adds-nothing, Adds-add_error, Adds-add_warning, Adds-add_warning_when, Adds-then, Adds-if,
}

abbrev pub no_secret : Option String → Bool
no_secret none = true
no_secret (some name) = false

-- A value that is a text matches no pattern of a secret.
abbrev pub value_ok : Value → Bool
value_ok (str s) = no_secret (first_match value_patterns s)
value_ok _ = true

abbrev pub env_ok : Members → Bool
env_ok no_members = true
env_ok (with_member name value others) = value_ok value && env_ok others

report_secret-Adds :
    (field : String) (o : Option String) (r : ValidationResult)
    → Adds r (report_secret field o r) (no_secret o)
report_secret-Adds field none r = Adds-nothing r
report_secret-Adds field (some name) r =
    Adds-add_error r code_plaintext_secret field (texts ("plaintext " ∷ name ∷ " detected" ∷ []))

check_value-Adds :
    (field : String) (v : Value) (r : ValidationResult)
    → Adds r (check_value field v r) (value_ok v)
unfolding check_plaintext_secrets
check_value-Adds field (str s) r = report_secret-Adds field (first_match value_patterns s) r
check_value-Adds field nil_value r = Adds-nothing r
check_value-Adds field v r = Adds-nothing r

validate_env-Adds :
    (field : String) (m : Members) (r : ValidationResult)
    → Adds r (validate_env field m r) (env_ok m)
unfolding validate_env
validate_env-Adds field no_members r = Adds-nothing r
validate_env-Adds field (with_member name value others) r =
    let place = cat field (cat "." name) in
    let text = texts ("environment variable name '" ∷ name ∷ "' may not be portable" ∷ []) in
    let odd = not (is_env_name name) in
    let r1 = add_warning_when odd code_invalid_env_name place text r in
    let r2 = check_value place value r1 in
    Adds-then r r1 (validate_env field others r2) true (value_ok value && env_ok others)
      (Adds-add_warning_when r odd code_invalid_env_name place text)
      (Adds-then r1 r2 (validate_env field others r2) (value_ok value) (env_ok others)
        (check_value-Adds place value r1) (validate_env-Adds field others r2))

check_arg-Adds :
    (field : String) (v : Value) (r : ValidationResult) → Adds r (check_arg field v r) true
check_arg-Adds field (str s) r =
    Adds-add_warning_when r (has_any ("${repo}" ∷ "${HOME}" ∷ []) s) code_unresolved_token field
      (cat "unresolved token in argument: " s)
check_arg-Adds field nil_value r = Adds-nothing r
check_arg-Adds field v r = Adds-nothing r

args_from-Adds :
    (i : ℕ) (field : String) (vs : Elements) (r : ValidationResult)
    → Adds r (args_from i field vs r) true
unfolding args_from
args_from-Adds i field no_elements r = Adds-nothing r
args_from-Adds i field (with_element v vs) r =
    let place = texts (field ∷ "[" ∷ itoa i ∷ "]" ∷ []) in
    let r' = check_arg place v r in
    Adds-then r r' (args_from (i + 1) field vs r') true true (check_arg-Adds place v r)
      (args_from-Adds (i + 1) field vs r')

pub args_part-Adds :
    (field : String) (o : Option Elements) (r : ValidationResult)
    → Adds r (args_part field o r) true
unfolding validate_args
args_part-Adds field none r = Adds-nothing r
args_part-Adds field (some vs) r = args_from-Adds 0 field vs r

abbrev pub env_part_ok : Option Members → Bool
env_part_ok none = true
env_part_ok (some m) = env_ok m

pub env_part-Adds :
    (field : String) (o : Option Members) (r : ValidationResult)
    → Adds r (env_part field o r) (env_part_ok o)
env_part-Adds field none r = Adds-nothing r
env_part-Adds field (some m) r = validate_env-Adds field m r

abbrev pub stat_ok : Stat → Bool
stat_ok (present executable) = executable
stat_ok _ = true

module _ (machine : Machine) where
  check_stat-Adds :
      (field resolved : String) (s : Stat) (r : ValidationResult)
      → Adds r (check_stat machine field resolved s r) (stat_ok s)
  check_stat-Adds field resolved not_exist r =
      Adds-add_warning r code_command_not_found field (cat "command not found: " resolved)
  check_stat-Adds field resolved (stat_error e) r =
      Adds-add_warning r code_command_not_found field (cat "cannot stat command: " e)
  check_stat-Adds field resolved (present true) r = Adds-nothing r
  check_stat-Adds field resolved (present false) r =
      Adds-add_error r code_command_not_executable field
        (cat "command is not executable: " resolved)

  -- A command without tokens that is an absolute path once it is resolved must be executable, if there
  -- is such a file.
  abbrev pub command_ok : String → Bool
  command_ok cmd =
      if str_eq cmd ""
      then true
      else if has_any ("${env:" ∷ "${keychain:" ∷ "${secret:" ∷ []) cmd
      then true
      else if has_any ("${repo}" ∷ "${HOME}" ∷ []) cmd
      then true
      else if not (has_prefix (resolve_path machine cmd) "/")
      then true
      else stat_ok (machine.stat (resolve_path machine cmd))

  pub check_command-Adds :
      (field cmd : String) (r : ValidationResult)
      → Adds r (check_command machine field cmd r) (command_ok cmd)
  unfolding validate_command
  check_command-Adds field cmd r =
      let resolved = resolve_path machine cmd in
      Adds-if r (str_eq cmd "") _ _ _ _ (Adds-nothing r) (
        Adds-if r (has_any ("${env:" ∷ "${keychain:" ∷ "${secret:" ∷ []) cmd) _ _ _ _
          (Adds-nothing r)
          (Adds-if r (has_any ("${repo}" ∷ "${HOME}" ∷ []) cmd) _ _ _ _
            (Adds-add_warning r code_unresolved_token field
              (cat "unresolved token in command: " cmd))
            (Adds-if r (not (has_prefix resolved "/")) _ _ _ _
              (Adds-add_warning r code_command_not_found field
                (cat "command is relative or in PATH: " cmd))
              (check_stat-Adds field resolved (machine.stat resolved) r))))
