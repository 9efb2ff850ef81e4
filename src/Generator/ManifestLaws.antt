-- ===== src/Generator/ManifestLaws.antt =====
-- What GenerateManifests of pkg/generator/manifests.go writes, against what its kustomization lists.
use fi_mcp_kit.Base.{◌≡◌, String, Option, none, some, List, [], ◌∷◌, ◌++◌, map, cat}
use fi_mcp_kit.Base.Value.{Value}
use fi_mcp_kit.Registry.Types.{Registry, Server}
use fi_mcp_kit.Generator.Tokens.{Env}
use fi_mcp_kit.Generator.Workload.{create_kustomization}
use fi_mcp_kit.Generator.ActionLaws.{paths, RunsLast}
use fi_mcp_kit.Generator.Manifests.{Action, write_yaml, Progress}

-- No entry of the servers is null.
abbrev pub IsThere : Option Server → Type 0
IsThere none = ⊥
IsThere (some s) = Unit

module _ (env : Env) (out : String) where
  -- Actions that end with a kustomization whose resources are the files written before it, and that
  -- write it exactly where all actions before it have worked.
  abbrev pub EndsWithList : String → List Action → Type 1
  EndsWithList namespace actions =
      (resources : List String) × (written : List Action) × (last : Action) × (last
        ≡ write_yaml (env.join_path out "kustomization.yaml")
            (create_kustomization resources namespace))
      × (actions ≡ written ++ last ∷ [])
      × (paths written ≡ map (env.join_path out) resources)
      × RunsLast written last actions

  -- filepath.Join takes a path of two names as it takes the names one after the other.
  abbrev pub IsJoin : Type 0
  IsJoin =
      (dir file : String)
      → env.join_path (env.join_path out dir) file ≡ env.join_path out (cat dir (cat "/" file))

  module _ (lower : String → String) (yaml : Value → String)
      (registry_yaml : Registry → Option String) (join : IsJoin) where
    -- The files written are the resources so far and `owed`, in this order.
    record Owes (owed : List String) (p : Progress) : Type 0 where
      paid : paths p.actions ≡ map (env.join_path out) (p.resources ++ owed)

    abbrev config_owed : String → Option Value → List String
    config_owed name none = []
    config_owed name (some v) = cat name "/configmap.yaml" ∷ []
