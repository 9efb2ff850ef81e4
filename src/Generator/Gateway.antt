-- ===== src/Generator/Gateway.antt =====
-- The resources of the gateway in pkg/generator/manifests.go: the first part of
-- generateGatewayManifests.
use fi_mcp_kit.Base.{suc, String, Bool, true, List, [], ◌∷◌, cat, str_eq, if◌then◌else◌}
use fi_mcp_kit.Base.Int.{ℤ, pos}
use fi_mcp_kit.Base.Value.{Value, str, number, truth, fields, items, strs}
use fi_mcp_kit.Validator.Formats.{int_text}
use fi_mcp_kit.Generator.Workload.{
  metadata, resource, amounts, probe, container_security, pod_security, port_entry, service_ports,
}

pub record GatewayManifests : Type 0 where
  pub enabled : Bool
  pub name : String
  pub image : String
  pub replicas : ℤ
  pub service_port : ℤ
  pub ingress_host : String
  pub ingress_class : String
  pub tls_secret : String

abbrev pub positive_or : ℤ → ℤ → ℤ
positive_or (pos (suc n)) d = pos (suc n)
positive_or _ d = d

-- The defaults of the options that are not set.
unfoldable pub with_defaults : String → GatewayManifests → GatewayManifests
with_defaults registry gw = record gw {
  name = if str_eq gw.name "" then "fi-mcp-gateway" else gw.name;
  replicas = positive_or gw.replicas (pos 2);
  service_port = positive_or gw.service_port (pos 80);
  image = if str_eq gw.image "" then cat registry "/fi-mcp-gateway:latest" else gw.image;
}

module _ (namespace : String) (gw : GatewayManifests) where
  abbrev pub app_labels : List (String × Value)
  app_labels = ("app", str gw.name) ∷ ("component", str "mcp-gateway") ∷ []

  abbrev pub gateway_meta : Value
  gateway_meta = metadata gw.name namespace app_labels

  abbrev pub match_app : Value
  match_app = fields (("matchLabels", fields (("app", str gw.name) ∷ [])) ∷ [])

  unfoldable pub registry_config_map : String → Value
  registry_config_map registry_yaml =
      resource "v1" "ConfigMap" (metadata (cat gw.name "-registry") namespace app_labels)
        (("data", fields (("registry.yaml", str registry_yaml) ∷ [])) ∷ [])

  abbrev pub env_entry : String → String → Value
  env_entry name value = fields (("name", str name) ∷ ("value", str value) ∷ [])

  abbrev pub gateway_container : Value
  gateway_container = fields (
      ("name", str gw.name)
      ∷ ("image", str gw.image)
      ∷ ("imagePullPolicy", str "Always")
      ∷ ("args", strs ("--registry" ∷ "/config/registry.yaml" ∷ "--listen" ∷ ":8080" ∷ []))
      ∷ ("ports", port_entry "http")
      ∷ (
        "env",
        items (
            env_entry "FI_MCP_AUTH_MODE" "none"
            ∷ env_entry "FI_MCP_AUTH_REQUIRED" "true"
            ∷ env_entry "FI_MCP_POLICY_DEFAULT" "allow"
            ∷ []),
      )
      ∷ (
        "envFrom",
        items (
            fields (
              (
                "secretRef",
                fields (("name", str (cat gw.name "-secrets")) ∷ ("optional", truth true) ∷ []),
              )
              ∷ [])
            ∷ []),
      )
      ∷ (
        "volumeMounts",
        items (
            fields (
              ("name", str "registry")
              ∷ ("mountPath", str "/config")
              ∷ ("readOnly", truth true)
              ∷ [])
            ∷ []),
      )
      ∷ (
        "resources",
        fields (("requests", amounts "50m" "128Mi") ∷ ("limits", amounts "500m" "512Mi") ∷ []),
      )
      ∷ ("livenessProbe", probe "/health" "10" "30")
      ∷ ("readinessProbe", probe "/ready" "5" "10")
      ∷ ("securityContext", container_security true)
      ∷ [])

  abbrev pub registry_volume : Value
  registry_volume = fields (
      ("name", str "registry")
      ∷ ("configMap", fields (("name", str (cat gw.name "-registry")) ∷ []))
      ∷ [])

  unfoldable pub gateway_deployment : Value
  gateway_deployment =
      let template : Value = fields (
        ("metadata", fields (("labels", fields app_labels) ∷ []))
        ∷ (
          "spec",
          fields (
              ("securityContext", pod_security)
              ∷ ("volumes", items (registry_volume ∷ []))
              ∷ ("containers", items (gateway_container ∷ []))
              ∷ []),
        )
        ∷ []) in
      resource "apps/v1" "Deployment" gateway_meta (
        (
          "spec",
          fields (
              ("replicas", number (int_text gw.replicas))
              ∷ ("selector", match_app)
              ∷ ("template", template)
              ∷ []),
        )
        ∷ [])

  unfoldable pub gateway_service : Value
  gateway_service = resource "v1" "Service" gateway_meta (
      (
        "spec",
        fields (
            ("type", str "ClusterIP")
            ∷ ("selector", fields (("app", str gw.name) ∷ []))
            ∷ ("ports", service_ports "http" (int_text gw.service_port))
            ∷ []),
      )
      ∷ [])
