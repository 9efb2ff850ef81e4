-- ===== src/Validator/Dispatch.antt =====
-- pkg/validator/validator.go: which checks a target gets, which file a target has, and which target a
-- file is for.
use fi_mcp_kit.Base.{
  ℕ, ◌+◌, ◌-◌, ◌*◌, ◌/◌, String, Bool, false, ◌&&◌, Option, none, some, List, [], ◌∷◌, cat, str_eq,
  eqb, contains, any_of, if◌then◌else◌,
}
use fi_mcp_kit.Base.Dict.{Dict, lookup}
use fi_mcp_kit.Base.Value.{Value}
use fi_mcp_kit.Validator.Json.{Parsed, Verdict, validate_json_schema}
use fi_mcp_kit.Validator.Formats.{
  TomlServer, Floats, validate_toml_structure, validate_kilo_json, is_json_target, is_toml_target,
}
use fi_mcp_kit.Validator.Result.{
  ValidationResult, new_result, set_valid, add_error, add_warning, has_errors, error_count,
  warning_count, code_invalid_schema,
}
use fi_mcp_kit.Validator.Runtime.{Machine}
use fi_mcp_kit.Validator.Specs.{validate_json_runtime, validate_kilo_runtime, validate_toml_runtime}

-- The decoders and the two embedded schemas that ValidateContent uses.
pub record Decoders : Type 0 where
  pub json : String → Parsed Value
  pub toml : String → Parsed (Dict TomlServer)
  pub mcp_schema : Value → Verdict
  pub kilo_schema : Value → Verdict
  pub floats : Floats

-- What os.ReadFile and os.Stat make of a file.
pub data FileContent : Type 0 where
  absent : FileContent
  unreadable : String → FileContent
  content : String → FileContent

module _ (machine : Machine) (decoders : Decoders) where
  abbrev pub check_content : String → String → String → ValidationResult
  check_content target file text =
      if str_eq target "kilocode"
      then validate_kilo_runtime machine decoders.json text
          (validate_kilo_json decoders.floats decoders.json decoders.kilo_schema target file text)
      else if is_json_target target
      then validate_json_runtime machine decoders.json text
          (validate_json_schema decoders.json decoders.mcp_schema target file text)
      else if is_toml_target target
      then validate_toml_runtime machine decoders.toml text
          (validate_toml_structure decoders.toml target file text)
      else add_warning code_invalid_schema "" "unknown target format, skipping validation"
          (new_result target file)

  unfoldable pub validate_content : String → String → String → ValidationResult
  unfolding is_json_target is_toml_target
  validate_content target file text = set_valid (check_content target file text)

  abbrev pub failed_read : String → String → String → ValidationResult
  failed_read target file text =
      add_error code_invalid_schema "" text (record (new_result target file) { valid = false })

  -- What ValidateGenerated and ValidateDirectory make of ValidateFile; the file may be gone again.
  abbrev pub file_result : String → String → FileContent → ValidationResult
  file_result target file absent = failed_read target file "file does not exist"
  file_result target file (unreadable text) = failed_read target file text
  file_result target file (content text) = validate_content target file text

-- The last two elements of a target's path: its directory and its file.
unfoldable pub get_config_path : String → Option (String × String)
get_config_path target =
    if contains ("claude" ∷ "vscode" ∷ "antigravity" ∷ []) target
    then some (target, "mcp.json")
    else if str_eq target "claude_desktop"
    then some (target, "claude_desktop_config.json")
    else if str_eq target "kilocode"
    then some (target, "kilo.json")
    else if contains ("codex" ∷ "gemini" ∷ []) target
    then some (target, "config.toml")
    else none

unfoldable pub infer_target : String → String → String
infer_target parent file =
    if contains (".claude" ∷ "claude" ∷ []) parent
    then "claude"
    else if contains (".codex" ∷ "codex" ∷ []) parent
    then "codex"
    else if contains (".kilocode" ∷ "kilocode" ∷ ".kilo" ∷ "kilo" ∷ []) parent
    then "kilocode"
    else if contains (".gemini" ∷ "gemini" ∷ []) parent
    then "gemini"
    else if contains (".vscode" ∷ "vscode" ∷ ".vscode-mcp" ∷ []) parent
    then "vscode"
    else if contains (".antigravity" ∷ "antigravity" ∷ []) parent
    then "antigravity"
    else if contains ("claude_desktop" ∷ "claude_desktop_config" ∷ []) parent
    then "claude_desktop"
    else if str_eq file "config.toml"
    then "codex"
    else if str_eq file "kilo.json"
    then "kilocode"
    else if str_eq file "mcp.json"
    then "claude"
    else "unknown"

abbrev pub patterns : Dict String
patterns =
    ("mcp.json", "")
    ∷ ("config.toml", "")
    ∷ ("kilo.json", "kilocode")
    ∷ ("claude_desktop_config.json", "claude_desktop")
    ∷ []

abbrev pub target_or_inferred : String → String → Option String → Option String
target_or_inferred parent file none = none
target_or_inferred parent file (some target) =
    if str_eq target "" then some (infer_target parent file) else some target

-- The target that ValidateDirectory takes a file for, by its directory's name and its own.
unfoldable pub target_of_file : String → String → Option String
unfolding infer_target lookup
target_of_file parent file = target_or_inferred parent file (lookup file patterns)

-- A file that filepath.Walk meets: the name of its directory, its own name, its path, and what a read
-- of it gives. Directories and entries with an error are left out.
pub record WalkEntry : Type 0 where
  pub parent : String
  pub file : String
  pub full_path : String
  pub on_disk : FileContent

-- The list with a result in front, where there is one.
abbrev pub prepend : Option ValidationResult → List ValidationResult → List ValidationResult
prepend none rs = rs
prepend (some r) rs = r ∷ rs

module _ (machine : Machine) (decoders : Decoders) where
  abbrev pub walked : WalkEntry → Option String → Option ValidationResult
  walked e none = none
  walked e (some target) = some (file_result machine decoders target e.full_path e.on_disk)

  unfoldable pub validate_directory : List WalkEntry → List ValidationResult
  unfolding validate_content target_of_file
  validate_directory [] = []
  validate_directory (e ∷ es) =
      prepend (walked e (target_of_file e.parent e.file)) (validate_directory es)

  -- `join` is filepath.Join on the output directory, `read` what a path holds.
  module _ (join : String × String → String) (read : String → FileContent) where
    abbrev pub generated : String → String → FileContent → Option ValidationResult
    generated target file absent = none
    generated target file c = some (file_result machine decoders target file c)

    abbrev pub generated_at : String → Option (String × String) → Option ValidationResult
    generated_at target none = none
    generated_at target (some path) = generated target (join path) (read (join path))

    unfoldable pub validate_generated : List String → List ValidationResult
    unfolding validate_content get_config_path
    validate_generated [] = []
    validate_generated (t ∷ ts) =
        prepend (generated_at t (get_config_path t)) (validate_generated ts)

unfoldable pub any_has_errors : List ValidationResult → Bool
any_has_errors rs = any_of has_errors rs

abbrev pub sum_of : (ValidationResult → ℕ) → List ValidationResult → ℕ
sum_of f [] = 0
sum_of f (r ∷ rs) = f r + sum_of f rs

-- `rune_text` is the conversion of a code point to a string.
module _ (rune_text : ℕ → String) where
  unfoldable pub pluralize : ℕ → String → String → String
  pluralize n singular plural =
      if eqb n 1
      then cat "1 " singular
      else cat (rune_text (b'0' + n / 10))
          (cat (rune_text (b'0' + (n - n / 10 * 10))) (cat " " plural))

  unfoldable pub summary_string : List ValidationResult → String
  unfolding pluralize
  summary_string rs =
      let errors = sum_of error_count rs in
      let warnings = sum_of warning_count rs in
      if eqb errors 0 && eqb warnings 0
      then "All configs valid"
      else if eqb errors 0
      then cat "No errors, " (pluralize warnings "warning" "warnings")
      else cat (pluralize errors "error" "errors")
          (cat ", " (pluralize warnings "warning" "warnings"))
