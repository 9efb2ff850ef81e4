-- ===== src/Validator/Runtime.antt =====
-- pkg/validator/runtime.go: checks of a command, an environment and arguments.
-- A map is gone through in some order.
use fi_mcp_kit.Base.{
  ℕ, ◌+◌, String, Bool, true, false, not, ◌&&◌, ◌||◌, Option, none, some, List, [], ◌∷◌, cat,
  str_eq, leb, eqb, if◌then◌else◌,
}
use Prim.Native.Char.{code}
use fi_mcp_kit.Base.Decimal.{itoa}
use fi_mcp_kit.Base.Text.{contains_text, has_prefix, strip_prefix}
use fi_mcp_kit.Base.Value.{
  Value, str, array, Members, no_members, with_member, Elements, no_elements, with_element,
}
use fi_mcp_kit.Validator.Pattern.{value_patterns, first_match, is_alphanumeric}
use fi_mcp_kit.Validator.Result.{
  ValidationResult, add_error, add_warning, texts, code_command_not_found,
  code_command_not_executable, code_invalid_env_name, code_unresolved_token, code_plaintext_secret,
}

-- What os.Stat makes of a path.
pub data Stat : Type 0 where
  not_exist : Stat
  stat_error : String → Stat
  present : (executable : Bool) → Stat

-- filepath.Join, os.ExpandEnv and os.Stat on the machine, and the home directory.
pub record Machine : Type 0 where
  pub home_dir : String
  pub join_path : String → String → String
  pub expand_env : String → String
  pub stat : String → Stat

abbrev pub has_any : List String → String → Bool
has_any [] s = false
has_any (t ∷ ts) s = contains_text s t || has_any ts s

abbrev pub add_warning_when : Bool → String → String → String → ValidationResult → ValidationResult
add_warning_when b code field message r = if b then add_warning code field message r else r

abbrev is_letter : ℕ → Bool
is_letter c = is_alphanumeric c && not (leb b'0' c && leb c b'9')

abbrev name_tail : String → Bool
name_tail String.[] = true
name_tail (String.◌∷◌ c s) = (is_alphanumeric (code c) || eqb (code c) b'_') && name_tail s

-- `^[A-Za-z_][A-Za-z0-9_]*$`
unfoldable pub is_env_name : String → Bool
is_env_name String.[] = false
is_env_name (String.◌∷◌ c s) = (is_letter (code c) || eqb (code c) b'_') && name_tail s

abbrev pub report_secret : String → Option String → ValidationResult → ValidationResult
report_secret field none r = r
report_secret field (some name) r =
    add_error code_plaintext_secret field (texts ("plaintext " ∷ name ∷ " detected" ∷ [])) r

unfoldable pub check_plaintext_secrets : String → String → ValidationResult → ValidationResult
unfolding first_match value_patterns
check_plaintext_secrets field value r = report_secret field (first_match value_patterns value) r

abbrev pub check_value : String → Value → ValidationResult → ValidationResult
check_value field (str s) r = check_plaintext_secrets field s r
check_value field _ r = r

unfoldable pub validate_env : String → Members → ValidationResult → ValidationResult
unfolding is_env_name check_plaintext_secrets
validate_env field no_members r = r
validate_env field (with_member name value others) r =
    let at = cat field (cat "." name) in
    let r =
      add_warning_when (not (is_env_name name)) code_invalid_env_name at
        (texts ("environment variable name '" ∷ name ∷ "' may not be portable" ∷ [])) r in
    validate_env field others (check_value at value r)

abbrev pub check_arg : String → Value → ValidationResult → ValidationResult
check_arg field (str s) r =
    add_warning_when (has_any ("${repo}" ∷ "${HOME}" ∷ []) s) code_unresolved_token field
      (cat "unresolved token in argument: " s) r
check_arg field _ r = r

unfoldable pub args_from : ℕ → String → Elements → ValidationResult → ValidationResult
args_from i field no_elements r = r
args_from i field (with_element v vs) r =
    args_from (i + 1) field vs (check_arg (texts (field ∷ "[" ∷ itoa i ∷ "]" ∷ [])) v r)

unfoldable pub validate_args : String → Elements → ValidationResult → ValidationResult
unfolding args_from
validate_args field args r = args_from 0 field args r

abbrev pub as_array : Option Value → Option Elements
as_array (some (array vs)) = some vs
as_array _ = none

module _ (machine : Machine) where
  abbrev pub behind : Option String → String → String
  behind none otherwise = otherwise
  behind (some rest) otherwise = machine.join_path machine.home_dir rest

  unfoldable pub resolve_path : String → String
  resolve_path path =
      machine.expand_env (behind (strip_prefix "~" path) (behind (strip_prefix "$HOME" path) path))

  abbrev pub check_stat : String → String → Stat → ValidationResult → ValidationResult
  check_stat field resolved not_exist r =
      add_warning code_command_not_found field (cat "command not found: " resolved) r
  check_stat field resolved (stat_error e) r =
      add_warning code_command_not_found field (cat "cannot stat command: " e) r
  check_stat field resolved (present true) r = r
  check_stat field resolved (present false) r =
      add_error code_command_not_executable field (cat "command is not executable: " resolved) r

  unfoldable pub validate_command : String → String → ValidationResult → ValidationResult
  unfolding resolve_path
  validate_command field cmd r =
      let resolved = resolve_path cmd in
      if has_any ("${env:" ∷ "${keychain:" ∷ "${secret:" ∷ []) cmd
      then r
      else if has_any ("${repo}" ∷ "${HOME}" ∷ []) cmd
      then add_warning code_unresolved_token field (cat "unresolved token in command: " cmd) r
      else if not (has_prefix resolved "/")
      then add_warning code_command_not_found field (cat "command is relative or in PATH: " cmd) r
      else check_stat field resolved (machine.stat resolved) r

  abbrev pub check_command : String → String → ValidationResult → ValidationResult
  check_command field cmd r = if str_eq cmd "" then r else validate_command field cmd r
