-- ===== src/Validator/Result.antt =====
-- pkg/validator/errors.go: the issues that a validation finds.
use fi_mcp_kit.Base.{
  ℕ, zero, suc, String, Bool, true, false, not, List, [], ◌∷◌, ◌++◌, cat, str_eq, any_of, count_if,
  if◌then◌else◌,
}
use fi_mcp_kit.Base.Decimal.{itoa}

pub data Severity : Type 0 where
  severity_error severity_warning : Severity

abbrev pub severity_text : Severity → String
severity_text severity_error = "error"
severity_text severity_warning = "warning"

abbrev pub is_error : Severity → Bool
is_error severity_error = true
is_error severity_warning = false

abbrev pub code_missing_root_key : String
code_missing_root_key = "MISSING_ROOT_KEY"

abbrev pub code_missing_command : String
code_missing_command = "MISSING_COMMAND"

abbrev pub code_invalid_args_type : String
code_invalid_args_type = "INVALID_ARGS_TYPE"

abbrev pub code_invalid_env_type : String
code_invalid_env_type = "INVALID_ENV_TYPE"

abbrev pub code_invalid_schema : String
code_invalid_schema = "INVALID_SCHEMA"

abbrev pub code_command_not_found : String
code_command_not_found = "COMMAND_NOT_FOUND"

abbrev pub code_command_not_executable : String
code_command_not_executable = "COMMAND_NOT_EXECUTABLE"

abbrev pub code_invalid_env_name : String
code_invalid_env_name = "INVALID_ENV_NAME"

abbrev pub code_invalid_timeout : String
code_invalid_timeout = "INVALID_TIMEOUT"

abbrev pub code_unresolved_token : String
code_unresolved_token = "UNRESOLVED_TOKEN"

abbrev pub code_upstream_schema : String
code_upstream_schema = "UPSTREAM_SCHEMA"

abbrev pub code_plaintext_secret : String
code_plaintext_secret = "PLAINTEXT_SECRET"

pub record ValidationError : Type 0 where
  pub file : String
  pub line : ℕ
  pub column : ℕ
  pub field : String
  pub message : String
  pub code : String
  pub severity : Severity

pub record ValidationResult : Type 0 where
  pub target : String
  pub file : String
  pub valid : Bool
  pub errors : List ValidationError

-- &ValidationResult{Target: target, File: file, Valid: true}
abbrev pub new_result : String → String → ValidationResult
new_result target file = record { target = target; file = file; valid = true; errors = [] }

abbrev pub location : ValidationError → String
location e = elim e.line [ zero ↦ e.file | suc n ↦ cat e.file (cat ":" (itoa (suc n))) ]

abbrev pub texts : List String → String
texts [] = ""
texts (s ∷ l) = cat s (texts l)

unfoldable pub error_text : ValidationError → String
error_text e =
    if str_eq e.field ""
    then texts ("[" ∷ severity_text e.severity ∷ "] " ∷ location e ∷ ": " ∷ e.message ∷ [])
    else texts (
        "["
        ∷ severity_text e.severity
        ∷ "] "
        ∷ location e
        ∷ ": "
        ∷ e.field
        ∷ " - "
        ∷ e.message
        ∷ [])

abbrev pub counts : ValidationError → Bool
counts e = is_error e.severity

abbrev pub warns : ValidationError → Bool
warns e = not (is_error e.severity)

unfoldable pub has_errors : ValidationResult → Bool
has_errors r = any_of counts r.errors

unfoldable pub has_warnings : ValidationResult → Bool
has_warnings r = any_of warns r.errors

unfoldable pub error_count : ValidationResult → ℕ
error_count r = count_if counts r.errors

unfoldable pub warning_count : ValidationResult → ℕ
warning_count r = count_if warns r.errors

abbrev pub error_lines : List ValidationError → String
error_lines [] = ""
error_lines (e ∷ es) = cat "  " (cat (error_text e) (cat "\n" (error_lines es)))

unfoldable pub result_text : ValidationResult → String
unfolding error_count warning_count
result_text r =
    if r.valid
    then cat r.target ": valid"
    else texts (
        r.target
        ∷ ": "
        ∷ itoa (error_count r)
        ∷ " errors, "
        ∷ itoa (warning_count r)
        ∷ " warnings\n"
        ∷ error_lines r.errors
        ∷ [])

abbrev pub issue : Severity → String → String → String → ℕ → ValidationResult → ValidationError
issue severity code field message line r = record {
  file = r.file;
  line = line;
  column = 0;
  field = field;
  message = message;
  code = code;
  severity = severity;
}

abbrev pub appended : ValidationError → ValidationResult → ValidationResult
appended e r = record r { errors = r.errors ++ (e ∷ []) }

unfoldable pub add_error : String → String → String → ValidationResult → ValidationResult
add_error code field message r = appended (issue severity_error code field message 0 r) r

unfoldable pub add_warning : String → String → String → ValidationResult → ValidationResult
add_warning code field message r = appended (issue severity_warning code field message 0 r) r

unfoldable pub add_error_with_line :
    String → String → String → ℕ → ValidationResult → ValidationResult
add_error_with_line code field message line r =
    appended (issue severity_error code field message line r) r

-- result.Valid = !result.HasErrors()
unfoldable pub set_valid : ValidationResult → ValidationResult
unfolding has_errors
set_valid r = record r { valid = not (has_errors r) }
