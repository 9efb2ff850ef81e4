-- ===== src/Generator/Tokens.antt =====
-- pkg/generator/common.go: the placeholders of paths, and the search for secrets in a file.
use fi_mcp_kit.Base.{
  ℕ, zero, suc, ◌+◌, String, Bool, false, not, ◌&&◌, ◌||◌, Option, none, some, List, [], ◌∷◌, ◌++◌,
  cat, str_eq, eqb, ltb, if◌then◌else◌,
}
use Prim.Native.Char.{code}
use fi_mcp_kit.Base.Text.{strip_prefix, has_prefix, replace_text, text_length}
use fi_mcp_kit.Base.Value.{Value}
use fi_mcp_kit.Validator.Pattern.{SecretPattern, line_patterns, matches_in, redact}

-- `home` is the home directory, `expand` what ReplaceAllString makes of its replacement, which it reads
-- as a template, `join` is filepath.Join, and `show` is the format %v.
pub record Env : Type 0 where
  pub home : String
  pub expand : String → String
  pub join_path : String → String → String
  pub show : Value → String

module _ (env : Env) where
  unfoldable pub resolve_tokens : String → String → String → String
  resolve_tokens value repo context =
      if str_eq context "cluster"
      then replace_text "${HOME}" "/home/mcp" (replace_text "${repo}" "/app" value)
      else replace_text "${HOME}" (env.expand env.home)
          (replace_text "${repo}" (env.expand repo) value)

  unfoldable pub resolve_command : String → String → String → String
  unfolding resolve_tokens
  resolve_command cmd repo context =
      let resolved = resolve_tokens cmd repo context in
      if str_eq cmd ""
      then ""
      else if str_eq context "local"
          && (has_prefix resolved "scripts/"
              || has_prefix resolved "mcp/"
              || has_prefix resolved "./")
      then env.join_path repo resolved
      else resolved

  unfoldable pub resolve_args : List Value → String → String → List String
  unfolding resolve_tokens
  resolve_args [] repo context = []
  resolve_args (a ∷ args) repo context =
      resolve_tokens (env.show a) repo context ∷ resolve_args args repo context

pub record SecretLeak : Type 0 where
  pub file : String
  pub line : ℕ
  pub kind : String
  pub snippet : String

-- The first characters of a text.
take_text : ℕ → String → String
take_text zero s = ""
take_text (suc n) String.[] = ""
take_text (suc n) (String.◌∷◌ c s) = String.◌∷◌ c (take_text n s)

-- For a line in ASCII, where a byte is a character.
unfoldable pub snippet_of : SecretPattern → String → String
unfolding take_text text_length redact
snippet_of p line =
    let snippet = redact p "[REDACTED]" line in
    if ltb 80 (text_length snippet) then cat (take_text 80 snippet) "..." else snippet

unfoldable pub line_leaks : String → ℕ → String → List SecretPattern → List SecretLeak
unfolding snippet_of matches_in
line_leaks file n line [] = []
line_leaks file n line (p ∷ ps) =
    if matches_in p line
    then record { file = file; line = n; kind = p.name; snippet = snippet_of p line }
      ∷ line_leaks file n line ps
    else line_leaks file n line ps

-- strings.Split(content, "\n"): the first line, and the others.
unfoldable pub split_lines : String → String × List String
split_lines String.[] = ("", [])
split_lines (String.◌∷◌ c s) =
    let (line, lines) = split_lines s in
    if eqb (code c) 10 then ("", line ∷ lines) else (String.◌∷◌ c line, lines)

unfoldable pub lines_leaks : String → ℕ → List String → List SecretLeak
unfolding line_leaks line_patterns
lines_leaks file n [] = []
lines_leaks file n (l ∷ ls) = line_leaks file n l line_patterns ++ lines_leaks file (n + 1) ls

unfoldable pub validate_no_plaintext_secrets : String → String → List SecretLeak
unfolding lines_leaks split_lines
validate_no_plaintext_secrets file content =
    let (line, lines) = split_lines content in lines_leaks file 1 (line ∷ lines)

-- `[^}]+\}`
has_closing : String → Bool
has_closing String.[] = false
has_closing (String.◌∷◌ c s) = not (eqb (code c) b'}') && (has_prefix s "}" || has_closing s)

abbrev closed : Option String → Bool
closed none = false
closed (some rest) = has_closing rest

reference_at : String → Bool
unfolding has_closing strip_prefix
reference_at s =
    closed (strip_prefix "${env:" s)
    || closed (strip_prefix "${keychain:" s)
    || closed (strip_prefix "${secret:" s)

unfoldable pub is_valid_secret_reference : String → Bool
unfolding reference_at
is_valid_secret_reference String.[] = false
is_valid_secret_reference (String.◌∷◌ c s) =
    reference_at (String.◌∷◌ c s) || is_valid_secret_reference s
