-- ===== src/Registry/Env.antt =====
-- Environment variables with fallback names: ResolveEnv, GetEnvWithFallback, DefaultEnvAliases and
-- MergeDefaultAliases of pkg/registry/registry.go. The process environment is the argument `getenv`.
use fi_mcp_kit.Base.{
  ◌≡◌, refl, String, Option, none, some, List, [], ◌∷◌, arith, str_eq, eq_iff, if◌then◌else◌,
}
use fi_mcp_kit.Base.Dict.{Dict, lookup, insert, lookup-insert}
use fi_mcp_kit.Registry.Types.{Registry, EnvVar}

abbrev pub fallbacks_of : Option (Dict EnvVar) → String → List String
fallbacks_of none n = []
fallbacks_of (some aliases) n = elim (lookup n aliases) [ none ↦ [] | some alias ↦ alias.fallbacks ]

abbrev pub default_aliases : Dict EnvVar
default_aliases =
    ("GITLAB_PERSONAL_ACCESS_TOKEN", record { fallbacks = "GITLAB_PAT" ∷ "GITLAB_TOKEN" ∷ [] })
    ∷ ("GRAFANA_API_TOKEN", record { fallbacks = "GRAFANA_API_KEY" ∷ "GRAFANA_TOKEN" ∷ [] })
    ∷ ("MORPH_QDRANT_API_KEY", record { fallbacks = "MORPH_API_KEY" ∷ "QDRANT_API_KEY" ∷ [] })
    ∷ ("QDRANT_API_KEY", record { fallbacks = "MORPH_API_KEY" ∷ [] })
    ∷ ("GITHUB_TOKEN", record { fallbacks = "GITHUB_PERSONAL_ACCESS_TOKEN" ∷ "GH_TOKEN" ∷ [] })
    ∷ ("GITHUB_PERSONAL_ACCESS_TOKEN", record { fallbacks = "GITHUB_TOKEN" ∷ "GH_TOKEN" ∷ [] })
    ∷ []

-- `for name, alias := range defaults { if _, exists := m[name]; !exists { m[name] = alias } }`
pub add_missing : Dict EnvVar → Dict EnvVar → Dict EnvVar
add_missing m [] = m
add_missing m ((n, alias) ∷ rest) =
    add_missing (elim (lookup n m) [ none ↦ insert n alias m | some _ ↦ m ]) rest

pub merge_default_aliases : Registry → Registry
unfolding add_missing
merge_default_aliases r = record r {
  env_aliases = elim r.env_aliases [
    | none ↦ some default_aliases
    | some m ↦ some (add_missing m default_aliases)
  ];
}

abbrev pub or_else {ℓ} : {A : Type ℓ} → Option A → Option A → Option A
or_else none b = b
or_else (some a) b = some a

lookup-add_missing :
    (k : String) (m ds : Dict EnvVar)
    → lookup k (add_missing m ds) ≡ or_else (lookup k m) (lookup k ds)
unfolding add_missing lookup
lookup-add_missing k m [] = ground arith
lookup-add_missing k m ((n, alias) ∷ rest) = ground (
  arith,
  lookup-add_missing k (insert n alias m) rest,
  lookup-add_missing k m rest,
  lookup-insert n k alias m,
  eq_iff n k,
)

abbrev pub aliases : Option (Dict EnvVar) → Dict EnvVar
aliases none = []
aliases (some m) = m

-- After MergeDefaultAliases the alias of every name is the registry's own where it had one, and the
-- default otherwise.
pub lookup-merge_default_aliases :
    (k : String) (r : Registry)
    → lookup k (aliases (merge_default_aliases r).env_aliases)
      ≡ or_else (lookup k (aliases r.env_aliases)) (lookup k default_aliases)
unfolding merge_default_aliases lookup
lookup-merge_default_aliases k r = ground (arith, h r.env_aliases)
  where
    h :
        (e : Option (Dict EnvVar))
        → lookup k (
            aliases (elim e [
              | none ↦ some default_aliases
              | some m ↦ some (add_missing m default_aliases)
            ]))
          ≡ or_else (lookup k (aliases e)) (lookup k default_aliases)
    h none = refl
    h (some m) = lookup-add_missing k m default_aliases

module _ (getenv : String → String) where
  -- The first variable of a list that is set, with its value.
  abbrev pub first_set : List String → Option String
  first_set [] = none
  first_set (n ∷ rest) = if str_eq (getenv n) "" then first_set rest else some (getenv n)

  -- `none` is the answer "", false.
  unfoldable pub resolve_env : Registry → String → Option String
  resolve_env r n =
      if str_eq (getenv n) "" then first_set (fallbacks_of r.env_aliases n) else some (getenv n)

  pub get_env_with_fallback : Registry → String → String
  get_env_with_fallback r n = elim (resolve_env r n) [ none ↦ "" | some v ↦ v ]
