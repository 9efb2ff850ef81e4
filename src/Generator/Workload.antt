-- ===== src/Generator/Workload.antt =====
-- The resources of one server in pkg/generator/manifests.go: createDeployment, createService and
-- createConfigMap, and createKustomization. A nil slice is not told
-- from an empty one.
use fi_mcp_kit.Base.{
  String, Bool, true, false, ◌||◌, Option, none, some, List, [], ◌∷◌, ◌++◌, cat, str_eq, any_of,
  map, if◌then◌else◌,
}
use fi_mcp_kit.Base.Value.{Value, str, number, truth, fields, items, strs}
use fi_mcp_kit.Registry.Types.{Server, TargetSpec}
use fi_mcp_kit.Registry.Spec.{common_spec}
use fi_mcp_kit.Validator.Formats.{int_text}
use fi_mcp_kit.Generator.Tokens.{Env, resolve_args}
use fi_mcp_kit.Generator.Deployment.{
  sort_strings, join_texts, sanitize_name, get_server_type, Var, env_vars,
}

abbrev pub metadata : String → String → List (String × Value) → Value
metadata name namespace labels =
    fields (("name", str name) ∷ ("namespace", str namespace) ∷ ("labels", fields labels) ∷ [])

abbrev pub resource : String → String → Value → List (String × Value) → Value
resource version kind meta rest =
    fields (("apiVersion", str version) ∷ ("kind", str kind) ∷ ("metadata", meta) ∷ rest)

abbrev pub amounts : String → String → Value
amounts cpu memory = fields (("cpu", str cpu) ∷ ("memory", str memory) ∷ [])

abbrev pub resources_for : List String → Value
resources_for categories =
    if any_of (λ c. str_eq c "kubernetes" || str_eq c "operations") categories
    then fields (("requests", amounts "100m" "256Mi") ∷ ("limits", amounts "500m" "512Mi") ∷ [])
    else fields (("requests", amounts "50m" "128Mi") ∷ ("limits", amounts "200m" "256Mi") ∷ [])

abbrev pub image_of : String → String → String
image_of registry kind =
    if str_eq kind "npx"
    then cat registry "/node-server:latest"
    else if str_eq kind "python" || str_eq kind "uvx" || str_eq kind "shell"
    then cat registry "/python-server:latest"
    else cat registry "/custom-server:latest"

abbrev pub replicas_of : String → String → String
replicas_of kind name =
    if str_eq name "ops_mcp" || str_eq name "k8s_apps_k3s"
    then "2"
    else if str_eq kind "npx" || str_eq kind "python" || str_eq kind "uvx"
    then "2"
    else "1"

abbrev pub probe : String → String → String → Value
probe path delay period = fields (
    ("httpGet", fields (("path", str path) ∷ ("port", number "8080") ∷ []))
    ∷ ("initialDelaySeconds", number delay)
    ∷ ("periodSeconds", number period)
    ∷ [])

abbrev pub container_security : Bool → Value
container_security read_only = fields (
    ("allowPrivilegeEscalation", truth false)
    ∷ ("readOnlyRootFilesystem", truth read_only)
    ∷ ("capabilities", fields (("drop", strs ("ALL" ∷ [])) ∷ []))
    ∷ [])

abbrev pub pod_security : Value
pod_security =
    fields (
      ("runAsNonRoot", truth true) ∷ ("runAsUser", number "1000") ∷ ("fsGroup", number "1000") ∷ [])

abbrev pub args_entry : List String → List (String × Value)
args_entry [] = []
args_entry (a ∷ args) = ("args", strs (a ∷ args)) ∷ []

abbrev pub port_entry : String → Value
port_entry name = items (fields (("containerPort", number "8080") ∷ ("name", str name) ∷ []) ∷ [])

module _ (env : Env) (lower : String → String) where
  unfoldable pub create_deployment : Server → String → String → Value
  unfolding get_server_type env_vars sanitize_name join_texts
  create_deployment server namespace registry =
      let name = sanitize_name lower server.name in
      let spec = common_spec server in
      let kind = get_server_type env spec in
      let args = if str_eq kind "npx" then resolve_args env spec.args "" "cluster" else [] in
      let vars = env_vars env server.name kind spec in
      let container : Value = fields (
        ("name", str name)
        ∷ ("image", str (image_of registry kind))
        ∷ ("imagePullPolicy", str "Always")
        ∷ ("env", items (map {A = Var} (λ v. v.1) vars))
        ∷ ("ports", port_entry "websocket")
        ∷ ("resources", resources_for server.categories)
        ∷ ("securityContext", container_security false)
        ∷ ("livenessProbe", probe "/health" "10" "30")
        ∷ ("readinessProbe", probe "/ready" "5" "10")
        ∷ args_entry args) in
      let labels : List (String × Value) =
        ("app", str name)
        ∷ ("component", str "mcp-server")
        ∷ ("mcp.server/name", str server.name)
        ∷ [] in
      let template : Value = fields (
        (
          "metadata",
          fields (
              ("labels", fields labels)
              ∷ (
                "annotations",
                fields (
                    ("mcp.server/description", str spec.description)
                    ∷ ("mcp.server/categories", str (join_texts "," server.categories))
                    ∷ []),
              )
              ∷ []),
        )
        ∷ (
          "spec",
          fields (("securityContext", pod_security) ∷ ("containers", items (container ∷ [])) ∷ []),
        )
        ∷ []) in
      resource "apps/v1" "Deployment"
        (metadata name namespace (labels ++ ("mcp.server/type", str kind) ∷ []))
        ((
          "spec",
          fields (
              ("replicas", number (replicas_of kind server.name))
              ∷ ("selector", fields (("matchLabels", fields (("app", str name) ∷ [])) ∷ []))
              ∷ ("template", template)
              ∷ []),
        )
          ∷ [])

abbrev pub service_ports : String → String → Value
service_ports name port = items (
    fields (
      ("name", str name)
      ∷ ("port", number port)
      ∷ ("targetPort", number "8080")
      ∷ ("protocol", str "TCP")
      ∷ [])
    ∷ [])

module _ (lower : String → String) where
  unfoldable pub create_service : Server → String → Value
  unfolding sanitize_name
  create_service server namespace =
      let name = sanitize_name lower server.name in
      resource "v1" "Service"
        (metadata (cat "mcp-" name) namespace
          (("app", str name) ∷ ("component", str "mcp-server") ∷ []))
        ((
          "spec",
          fields (
              ("type", str "ClusterIP")
              ∷ ("selector", fields (("app", str name) ∷ []))
              ∷ ("ports", service_ports "websocket" "8080")
              ∷ []),
        )
          ∷ [])

  -- `yaml` is yaml.Marshal, whose error is not read.
  abbrev pub config_of : (Value → String) → Server → String → TargetSpec → Value
  config_of yaml server namespace spec =
      let name = sanitize_name lower server.name in
      let config : Value = fields (
        ("name", str server.name)
        ∷ ("description", str spec.description)
        ∷ ("categories", strs server.categories)
        ∷ ("timeout", number (int_text spec.timeout))
        ∷ ("always_allow", strs spec.always_allow)
        ∷ []) in
      resource "v1" "ConfigMap"
        (metadata (cat name "-config") namespace
          (("app", str name) ∷ ("component", str "mcp-server") ∷ []))
        (("data", fields (("server.yaml", str (yaml config)) ∷ [])) ∷ [])

  unfoldable pub create_config_map : (Value → String) → Server → String → Option Value
  unfolding sanitize_name
  create_config_map yaml server namespace = elim server.common [
    | none ↦ none
    | some spec ↦ some (config_of yaml server namespace spec)
  ]

unfoldable pub create_kustomization : List String → String → Value
unfolding sort_strings
create_kustomization resources namespace = fields (
    ("apiVersion", str "kustomize.config.k8s.io/v1beta1")
    ∷ ("kind", str "Kustomization")
    ∷ ("namespace", str namespace)
    ∷ ("resources", strs (sort_strings resources))
    ∷ (
      "commonLabels",
      fields (
          ("app.kubernetes.io/part-of", str "mcp-hub")
          ∷ ("app.kubernetes.io/managed-by", str "kustomize")
          ∷ []),
    )
    ∷ [])
