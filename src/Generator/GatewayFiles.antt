-- ===== src/Generator/GatewayFiles.antt =====
-- The rest of the resources of generateGatewayManifests of pkg/generator/manifests.go.
use fi_mcp_kit.Base.{String, List, [], ◌∷◌, ◌++◌, str_eq, if◌then◌else◌}
use fi_mcp_kit.Base.Value.{Value, str, number, fields, items, strs}
use fi_mcp_kit.Validator.Formats.{int_text}
use fi_mcp_kit.Generator.Workload.{resource}
use fi_mcp_kit.Generator.Gateway.{GatewayManifests, app_labels, gateway_meta, match_app}

module _ (namespace : String) (gw : GatewayManifests) where
  abbrev pub ingress_rules : Value
  ingress_rules = items (
      fields (
        ("host", str gw.ingress_host)
        ∷ (
          "http",
          fields (
              (
                "paths",
                items (
                    fields (
                      ("path", str "/")
                      ∷ ("pathType", str "Prefix")
                      ∷ (
                        "backend",
                        fields (
                            (
                              "service",
                              fields (
                                  ("name", str gw.name)
                                  ∷ (
                                    "port",
                                    fields (("number", number (int_text gw.service_port)) ∷ []),
                                  )
                                  ∷ []),
                            )
                            ∷ []),
                      )
                      ∷ [])
                    ∷ []),
              )
              ∷ []),
        )
        ∷ [])
      ∷ [])

  abbrev pub class_entry : List (String × Value)
  class_entry =
      if str_eq gw.ingress_class "" then [] else ("ingressClassName", str gw.ingress_class) ∷ []

  abbrev pub tls_entry : List (String × Value)
  tls_entry =
      if str_eq gw.tls_secret ""
      then []
      else (
        "tls",
        items (
            fields (("hosts", strs (gw.ingress_host ∷ [])) ∷ ("secretName", str gw.tls_secret) ∷ [])
            ∷ []),
      )
        ∷ []

  unfoldable pub gateway_ingress : Value
  gateway_ingress =
      let meta : Value = fields (
        ("name", str gw.name)
        ∷ ("namespace", str namespace)
        ∷ ("labels", fields (app_labels namespace gw))
        ∷ (
          "annotations",
          fields (
              ("nginx.ingress.kubernetes.io/proxy-read-timeout", str "3600")
              ∷ ("nginx.ingress.kubernetes.io/proxy-send-timeout", str "3600")
              ∷ []),
        )
        ∷ []) in
      resource "networking.k8s.io/v1" "Ingress" meta
        (("spec", fields (("rules", ingress_rules) ∷ class_entry ++ tls_entry)) ∷ [])

  unfoldable pub gateway_pdb : Value
  gateway_pdb = resource "policy/v1" "PodDisruptionBudget" (gateway_meta namespace gw) (
      ("spec", fields (("minAvailable", number "1") ∷ ("selector", (match_app namespace gw)) ∷ []))
      ∷ [])

  abbrev pub cpu_metric : Value
  cpu_metric = fields (
      ("type", str "Resource")
      ∷ (
        "resource",
        fields (
            ("name", str "cpu")
            ∷ (
              "target",
              fields (("type", str "Utilization") ∷ ("averageUtilization", number "70") ∷ []),
            )
            ∷ []),
      )
      ∷ [])

  unfoldable pub gateway_hpa : Value
  gateway_hpa =
      let target : Value =
        fields (
          ("apiVersion", str "apps/v1")
          ∷ ("kind", str "Deployment")
          ∷ ("name", str gw.name)
          ∷ []) in
      resource "autoscaling/v2" "HorizontalPodAutoscaler" (gateway_meta namespace gw) (
        (
          "spec",
          fields (
              ("scaleTargetRef", target)
              ∷ ("minReplicas", number (int_text gw.replicas))
              ∷ ("maxReplicas", number "5")
              ∷ ("metrics", items (cpu_metric ∷ []))
              ∷ []),
        )
        ∷ [])
