-- ===== src/Validator/Pattern.antt =====
-- The regular expressions of pkg/validator/runtime.go and pkg/generator/common.go that tell a secret:
-- a prefix, and behind it a number of characters of a class.
use fi_mcp_kit.Base.{
  ℕ, zero, suc, ◌+◌, String, Bool, true, false, ◌&&◌, ◌||◌, Option, none, some, List, [], ◌∷◌, cat,
  ◌-◌, ltb, leb, eqb, if◌then◌else◌,
}
use Prim.Native.Char.{code}
use fi_mcp_kit.Base.Text.{strip_prefix, text_length}

abbrev pub is_alphanumeric : ℕ → Bool
is_alphanumeric c =
    (leb b'a' c && leb c b'z') || (leb b'A' c && leb c b'Z') || (leb b'0' c && leb c b'9')

abbrev pub is_one_of : List ℕ → ℕ → Bool
is_one_of [] c = false
is_one_of (d ∷ ds) c = eqb c d || is_one_of ds c

-- The prefix, and how many letters, digits or other characters follow it: at least `least` of
-- them, or exactly so many.
pub record SecretPattern : Type 0 where
  pub prefix : String
  pub others : List ℕ
  pub least : ℕ
  pub exact : Bool
  pub name : String

-- How many characters of the class a text begins with, and whether all are of it.
unfoldable pub run_length : List ℕ → String → ℕ
run_length others String.[] = 0
run_length others (String.◌∷◌ c s) =
    let rest = run_length others s in
    if is_alphanumeric (code c) || is_one_of others (code c) then suc rest else 0

abbrev pub match_behind : SecretPattern → Option String → Option ℕ
match_behind p none = none
match_behind p (some rest) =
    let n = run_length p.others rest in
    if ltb n p.least then none else some (text_length p.prefix + (if p.exact then p.least else n))

-- The length of the match that a text begins with.
unfoldable pub match_at : SecretPattern → String → Option ℕ
unfolding run_length text_length strip_prefix
match_at p s = match_behind p (strip_prefix p.prefix s)

abbrev pub is_length : Option ℕ → ℕ → Bool
is_length none n = false
is_length (some m) n = eqb m n

-- `^…$`
unfoldable pub matches_whole : SecretPattern → String → Bool
unfolding match_at text_length
matches_whole p s = is_length (match_at p s) (text_length s)

abbrev pub is_match : Option ℕ → Bool
is_match none = false
is_match (some n) = true

-- MatchString without anchors.
unfoldable pub matches_in : SecretPattern → String → Bool
unfolding match_at
matches_in p String.[] = is_match (match_at p "")
matches_in p (String.◌∷◌ c s) = is_match (match_at p (String.◌∷◌ c s)) || matches_in p s

-- ReplaceAllString, with so many characters of a match still to be left out. No pattern matches the
-- empty text.
unfoldable pub redact_from : SecretPattern → String → ℕ → String → String
unfolding match_at
redact_from p new n String.[] = ""
redact_from p new (suc n) (String.◌∷◌ c s) = redact_from p new n s
redact_from p new zero (String.◌∷◌ c s) =
    let kept = redact_from p new 0 s in
    elim (match_at p (String.◌∷◌ c s)) [
      | none ↦ String.◌∷◌ c kept
      | some n ↦ cat new (redact_from p new (n - 1) s)
    ]

unfoldable pub redact : SecretPattern → String → String → String
unfolding redact_from
redact p new s = redact_from p new 0 s

abbrev pub exactly : ℕ → String → List ℕ → String → SecretPattern
exactly n prefix others name = record {
  prefix = prefix;
  others = others;
  least = n;
  exact = true;
  name = name;
}

abbrev pub at_least_of : ℕ → String → List ℕ → String → SecretPattern
at_least_of n prefix others name = record {
  prefix = prefix;
  others = others;
  least = n;
  exact = false;
  name = name;
}

-- The patterns of checkPlaintextSecrets, each anchored at both ends.
unfoldable pub value_patterns : List SecretPattern
value_patterns =
    exactly 36 "ghp_" [] "GitHub personal access token"
    ∷ exactly 36 "gho_" [] "GitHub OAuth token"
    ∷ exactly 36 "ghu_" [] "GitHub user-to-server token"
    ∷ exactly 36 "ghs_" [] "GitHub server-to-server token"
    ∷ exactly 36 "ghr_" [] "GitHub refresh token"
    ∷ at_least_of 20 "glpat-" (b'_' ∷ b'-' ∷ []) "GitLab personal access token"
    ∷ exactly 48 "sk-" [] "OpenAI API key"
    ∷ exactly 48 "sk-E" (b'-' ∷ []) "OpenAI API key"
    ∷ exactly 32 "tvly-" [] "Tavily API key"
    ∷ exactly 33 "AIzaSy" (b'_' ∷ b'-' ∷ []) "Google API key"
    ∷ at_least_of 1 "GOCSPX-" (b'_' ∷ b'-' ∷ []) "Google OAuth client secret"
    ∷ exactly 34 "hf_" [] "HuggingFace token"
    ∷ []

-- knownSecretPatterns, which are searched for in a line.
unfoldable pub line_patterns : List SecretPattern
line_patterns =
    exactly 36 "ghp_" [] "GitHub Personal Access Token"
    ∷ exactly 36 "gho_" [] "GitHub OAuth Token"
    ∷ exactly 36 "ghu_" [] "GitHub User Token"
    ∷ exactly 36 "ghs_" [] "GitHub Server Token"
    ∷ exactly 36 "ghr_" [] "GitHub Refresh Token"
    ∷ at_least_of 20 "glpat-" (b'_' ∷ b'-' ∷ []) "GitLab Personal Access Token"
    ∷ at_least_of 32 "sk-" [] "API Secret Key (OpenAI/Anthropic style)"
    ∷ at_least_of 40 "sk-E-" [] "Morph API Key"
    ∷ at_least_of 30 "tvly-" (b'-' ∷ []) "Tavily API Key"
    ∷ at_least_of 32 "glsa_" [] "Grafana Service Account Token"
    ∷ at_least_of 50 "z_" (b'.' ∷ b'_' ∷ b'-' ∷ []) "Zep API Key"
    ∷ at_least_of 30 "hf_" [] "Hugging Face Token"
    ∷ exactly 33 "AIzaSy" (b'_' ∷ b'-' ∷ []) "Google API Key"
    ∷ exactly 28 "GOCSPX-" (b'_' ∷ b'-' ∷ []) "Google OAuth Client Secret"
    ∷ []

unfoldable pub first_match : List SecretPattern → String → Option String
unfolding matches_whole
first_match [] s = none
first_match (p ∷ ps) s = if matches_whole p s then some p.name else first_match ps s
