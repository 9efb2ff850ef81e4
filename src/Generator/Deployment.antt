-- ===== src/Generator/Deployment.antt =====
-- createDeployment of pkg/generator/manifests.go with getServerType, sanitizeName and its environment.
use fi_mcp_kit.Base.{
  String, Bool, true, false, ◌||◌, Option, none, some, List, [], ◌∷◌, ◌++◌, cat, str_eq, contains,
  map, if◌then◌else◌,
}
use Prim.Native.String.{compare}
use fi_mcp_kit.Base.Dict.{Dict, lookup}
use fi_mcp_kit.Base.Text.{has_suffix, replace_text}
use fi_mcp_kit.Base.Value.{Value}
use fi_mcp_kit.Registry.Types.{TargetSpec}
use fi_mcp_kit.Generator.Tokens.{Env, resolve_tokens, resolve_args}
use fi_mcp_kit.Generator.SecretToken.{k8s_env_var, plain_var}

-- Whether the bytes of a text are at most those of another.
abbrev pub text_le : String → String → Bool
text_le s t = elim (compare s t) [ Prim.Native.Nat.Ordering.gt ↦ false | _ ↦ true ]

unfoldable pub insert_text : String → List String → List String
insert_text x [] = x ∷ []
insert_text x (y ∷ l) = if text_le x y then x ∷ y ∷ l else y ∷ insert_text x l

-- sort.Strings
unfoldable pub sort_strings : List String → List String
unfolding insert_text
sort_strings [] = []
sort_strings (x ∷ l) = insert_text x (sort_strings l)

-- strings.Join
unfoldable pub join_texts : String → List String → String
join_texts sep [] = ""
join_texts sep (x ∷ []) = x
join_texts sep (x ∷ y ∷ l) = cat x (cat sep (join_texts sep (y ∷ l)))

-- `lower` is strings.ToLower.
unfoldable pub sanitize_name : (String → String) → String → String
sanitize_name lower name = lower (replace_text "_" "-" name)

abbrev pub first_is_npx : Env → List Value → Bool
first_is_npx env [] = false
first_is_npx env (a ∷ args) = str_eq (env.show a) "npx"

unfoldable pub get_server_type : Env → TargetSpec → String
get_server_type env spec =
    if str_eq spec.command "npx" || first_is_npx env spec.args
    then "npx"
    else if str_eq spec.command "python3"
        || str_eq spec.command "python"
        || has_suffix spec.command ".py"
    then "python"
    else if str_eq spec.command "uvx"
    then "uvx"
    else if has_suffix spec.command ".sh"
    then "shell"
    else "custom"

abbrev pub keys_of_env : Option (Dict String) → List String
keys_of_env none = []
keys_of_env (some env) = map {A = String × String} (λ e. e.0) env

abbrev pub value_of_env : Option (Dict String) → String → String
value_of_env none k = ""
value_of_env (some env) k = elim (lookup k env) [ none ↦ "" | some v ↦ v ]

-- A variable of a container: its name, and the map that is written for it.
abbrev pub Var : Type 0
Var = String × Value

module _ (env : Env) where
  unfoldable pub vars_of : Option (Dict String) → List Var
  unfolding k8s_env_var sort_strings
  vars_of e =
      map {A = String} (λ k. (k, k8s_env_var env k (value_of_env e k)))
        (sort_strings (keys_of_env e))

  abbrev pub plain : String → String → Var
  plain name value = (name, plain_var env name value)

  -- The variables that a container gets unless the server sets them. A map: their order is one of any.
  abbrev pub default_vars : String → List Var
  default_vars name =
      plain "MCP_SERVER_NAME" name
      ∷ plain "MCP_TRANSPORT" "websocket"
      ∷ plain "MCP_WS_PORT" "8080"
      ∷ plain "LOG_LEVEL" "info"
      ∷ []

  abbrev pub names : List Var → List String
  names vs = map {A = Var} (λ v. v.0) vs

  -- The defaults whose names are not among `existing`.
  unfoldable pub missing_vars : List String → List Var → List Var
  missing_vars existing [] = []
  missing_vars existing (v ∷ vs) =
      if contains existing v.0 then missing_vars existing vs else v ∷ missing_vars existing vs

  unfoldable pub command_var : String → TargetSpec → List Var
  unfolding join_texts resolve_tokens resolve_args
  command_var kind spec =
      let full =
        join_texts " " (
          resolve_tokens env spec.command "" "cluster" ∷ resolve_args env spec.args "" "cluster") in
      if str_eq kind "npx" || str_eq full "" then [] else plain "MCP_SERVER_COMMAND" full ∷ []

  unfoldable pub env_vars : String → String → TargetSpec → List Var
  unfolding vars_of missing_vars command_var
  env_vars name kind spec =
      let own = vars_of spec.env in
      (own ++ missing_vars (names own) (default_vars name)) ++ command_var kind spec
