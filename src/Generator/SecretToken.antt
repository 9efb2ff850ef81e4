-- ===== src/Generator/SecretToken.antt =====
-- References to secrets in pkg/generator/manifests.go: parseSecretToken and k8sEnvVarFromRegistry.
use fi_mcp_kit.Base.{
  String, Bool, true, false, Option, none, some, List, [], ◌∷◌, str_eq, contains, if◌then◌else◌,
}
use fi_mcp_kit.Base.Text.{strip_prefix, has_suffix, drop_last, cut_text}
use fi_mcp_kit.Base.Value.{Value, str, fields}
use fi_mcp_kit.Generator.Tokens.{Env, resolve_tokens}

pub record Token : Type 0 where
  pub kind : String
  pub key : String
  pub default_value : Option String

abbrev pub with_default : String → String → Option (String × String) → Option Token
with_default kind rest none = some (record { kind = kind; key = rest; default_value = none })
with_default kind rest (some (key, value)) =
    if str_eq key ""
    then none
    else some (record { kind = kind; key = key; default_value = some value })

abbrev pub token_kinds : List String
token_kinds = "env" ∷ "keychain" ∷ "secret" ∷ []

abbrev pub parse_parts : Option (String × String) → Option Token
parse_parts none = none
parse_parts (some (kind, rest)) =
    if contains token_kinds kind
    then (if str_eq rest "" then none else with_default kind rest (cut_text ":-" rest))
    else none

-- The text between the braces.
abbrev pub parse_body : Bool → Option String → Option Token
parse_body false body = none
parse_body true none = none
parse_body true (some body) = parse_parts (cut_text ":" (drop_last body))

unfoldable pub parse_secret_token : String → Option Token
unfolding strip_prefix has_suffix drop_last cut_text
parse_secret_token value = parse_body (has_suffix value "}") (strip_prefix "${" value)

abbrev pub shared_secrets : String
shared_secrets = "mcp-secrets"

module _ (env : Env) where
  abbrev pub plain_var : String → String → Value
  plain_var name value = fields (("name", str name) ∷ ("value", str value) ∷ [])

  abbrev pub secret_var : String → String → Value
  secret_var name key = fields (
      ("name", str name)
      ∷ (
        "valueFrom",
        fields
            (("secretKeyRef", fields (("name", str shared_secrets) ∷ ("key", str key) ∷ [])) ∷ []),
      )
      ∷ [])

  abbrev pub default_var : String → String → Option String → Value
  default_var name key none = secret_var name key
  default_var name key (some value) = plain_var name (resolve_tokens env value "" "cluster")

  abbrev pub env_var_of : String → String → Option Token → Value
  env_var_of name value none = plain_var name value
  env_var_of name value (some token) = default_var name token.key token.default_value

  unfoldable pub k8s_env_var : String → String → Value
  unfolding resolve_tokens parse_secret_token
  k8s_env_var name raw =
      let value = resolve_tokens env raw "" "cluster" in
      env_var_of name value (parse_secret_token value)
