-- ===== src/Secrets/EnvBackend.antt =====
-- The backend on environment variables, pkg/secrets/env.go. The world is the environment, a list of
-- name=value.
use fi_mcp_kit.Base.{String, true, false, Option, none, some, List, [], ◌∷◌, any_of, if◌then◌else◌}
use fi_mcp_kit.Base.Text.{has_prefix, has_suffix}
use fi_mcp_kit.Secrets.Store.{Backend}

-- What stands before the first "=" and behind it: strings.SplitN(env, "=", 2) with two parts.
unfoldable pub split_equals : String → Option (String × String)
unfolding has_prefix
split_equals String.[] = none
split_equals (String.◌∷◌ c s) =
    if has_prefix (String.◌∷◌ c s) "="
    then some ("", s)
    else elim (split_equals s) [ none ↦ none | some (n, v) ↦ some (String.◌∷◌ c n, v) ]

abbrev pub secret_suffixes : List String
secret_suffixes =
    "_TOKEN" ∷ "_KEY" ∷ "_SECRET" ∷ "_PASSWORD" ∷ "_PAT" ∷ "_API_KEY" ∷ "_API_TOKEN"
    ∷ "_ACCESS_TOKEN" ∷ []

unfoldable pub env_names : List String → List String
unfolding split_equals
env_names [] = []
env_names (e ∷ environ) = elim (split_equals e) [
  | none ↦ env_names environ
  | some (n, v) ↦
      if any_of (has_suffix n) secret_suffixes then n ∷ env_names environ else env_names environ
]

-- `getenv` is os.Getenv, `environ` os.Environ.
module _ {S : Type 0} (getenv : S → String → String) (environ : S → List String) where
  unfoldable pub env_backend : Backend S
  unfolding env_names
  env_backend = record {
    name = "env";
    read_only = true;
    get = λ key w. some (getenv w key);
    list = λ w. some (env_names (environ w));
    set = λ key value w. (false, w);
    delete = λ key w. (false, w);
  }
