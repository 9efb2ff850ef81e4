-- ===== src/Generator/Manifests.antt =====
-- GenerateManifests of pkg/generator/manifests.go, as the list of what it does to the file system; it
-- ends at the first action that fails.
use fi_mcp_kit.Base.{
  String, Bool, true, false, Option, none, some, List, [], ◌∷◌, ◌++◌, cat, str_eq, if◌then◌else◌,
}
use fi_mcp_kit.Base.Run.{Run, returns, panics}
use fi_mcp_kit.Base.Value.{Value}
use fi_mcp_kit.Registry.Types.{Registry, Server}
use fi_mcp_kit.Registry.Query.{is_local_only}
use fi_mcp_kit.Generator.Tokens.{Env}
use fi_mcp_kit.Generator.Deployment.{sanitize_name}
use fi_mcp_kit.Generator.Workload.{
  create_deployment, create_service, create_config_map, create_kustomization,
}
use fi_mcp_kit.Generator.Gateway.{
  GatewayManifests, with_defaults, registry_config_map, gateway_deployment, gateway_service,
}
use fi_mcp_kit.Generator.GatewayFiles.{gateway_ingress, gateway_pdb, gateway_hpa}
use fi_mcp_kit.Base.Text.{trim_space}

-- os.MkdirAll, writeYaml, the dereference of a null entry of the servers, and an error that
-- marshalling the registry has.
pub data Action : Type 0 where
  make_dir : String → Action
  write_yaml : String → Value → Action
  deref_nil marshal_error : Action

-- What the function has done so far, and generatedResources.
pub record Progress : Type 0 where
  pub actions : List Action
  pub resources : List String

unfoldable pub did : Action → Progress → Progress
did a p = record p { actions = p.actions ++ a ∷ [] }

unfoldable pub add_resource : String → Progress → Progress
add_resource name p = record p { resources = p.resources ++ name ∷ [] }

pub record ManifestsOptions : Type 0 where
  pub namespace : String
  pub image_registry : String
  pub gateway : GatewayManifests

-- `lower` is strings.ToLower, `yaml` yaml.Marshal on a map, `registry_yaml` what it makes of the
-- registry; `out` is the output directory.
module _ (env : Env) (lower : String → String) (yaml : Value → String)
    (registry_yaml : Registry → Option String) (out : String) where
  abbrev pub wrote : String → String → Value → Progress → Progress
  wrote dir file v p = did (write_yaml (env.join_path dir file) v) p

  -- A config map is written, and later listed, if there is one.
  unfoldable pub write_config : String → Option Value → Progress → Progress
  write_config dir none p = p
  write_config dir (some v) p = wrote dir "configmap.yaml" v p

  unfoldable pub list_config : String → Option Value → Progress → Progress
  list_config name none p = p
  list_config name (some v) p = add_resource (cat name "/configmap.yaml") p

  -- The body of the loop for a server that is not local only.
  unfoldable pub server_step : Server → String → String → Progress → Progress
  unfolding sanitize_name create_deployment create_service create_config_map
  server_step s namespace registry p =
      let name = sanitize_name lower s.name in
      let dir = env.join_path out name in
      let config = create_config_map lower yaml s namespace in
      let p = did (make_dir dir) p in
      let p = wrote dir "deployment.yaml" (create_deployment env lower s namespace registry) p in
      let p = wrote dir "service.yaml" (create_service lower s namespace) p in
      let p = write_config dir config p in
      let p = add_resource (cat name "/deployment.yaml") p in
      let p = add_resource (cat name "/service.yaml") p in list_config name config p

  -- The loop over the servers, and whether a null entry stops it.
  unfoldable pub server_steps : List (Option Server) → String → String → Progress → Progress × Bool
  unfolding server_step is_local_only
  server_steps [] namespace registry p = (p, false)
  server_steps (none ∷ rest) namespace registry p = (did deref_nil p, true)
  server_steps (some s ∷ rest) namespace registry p =
      server_steps rest namespace registry
        (if is_local_only s then p else server_step s namespace registry p)

  unfoldable pub ingress_step : String → String → GatewayManifests → Progress → Progress
  ingress_step dir namespace gw p =
      if str_eq (trim_space gw.ingress_host) ""
      then p
      else add_resource "gateway/ingress.yaml"
          (wrote dir "ingress.yaml" (gateway_ingress namespace gw) p)

  unfoldable pub gateway_steps : String → String → GatewayManifests → String → Progress → Progress
  unfolding registry_config_map gateway_deployment gateway_service gateway_ingress gateway_pdb
      gateway_hpa
  gateway_steps dir namespace gw text p =
      let p = wrote dir "registry-configmap.yaml" (registry_config_map namespace gw text) p in
      let p = add_resource "gateway/registry-configmap.yaml" p in
      let p = wrote dir "deployment.yaml" (gateway_deployment namespace gw) p in
      let p = add_resource "gateway/deployment.yaml" p in
      let p = wrote dir "service.yaml" (gateway_service namespace gw) p in
      let p = add_resource "gateway/service.yaml" p in
      let p = ingress_step dir namespace gw p in
      let p = wrote dir "pdb.yaml" (gateway_pdb namespace gw) p in
      let p = add_resource "gateway/pdb.yaml" p in
      let p = wrote dir "hpa.yaml" (gateway_hpa namespace gw) p in add_resource "gateway/hpa.yaml" p

  abbrev pub finish : String → Progress → List Action
  finish namespace p =
      (wrote out "kustomization.yaml" (create_kustomization p.resources namespace) p).actions

  abbrev pub with_gateway :
      String → String → GatewayManifests → Option String → Progress → List Action
  with_gateway namespace registry gw none p = (did marshal_error p).actions
  with_gateway namespace registry gw (some text) p =
      finish namespace
        (gateway_steps (env.join_path out "gateway") namespace (with_defaults registry gw) text p)

  abbrev pub text_or : String → String → String
  text_or s d = if str_eq s "" then d else s

  abbrev pub after_servers :
      Registry → String → String → GatewayManifests → Progress × Bool → List Action
  after_servers reg namespace registry gw (p, true) = p.actions
  after_servers reg namespace registry gw (p, false) =
      if gw.enabled
      then with_gateway namespace registry gw (registry_yaml reg)
          (did (make_dir (env.join_path out "gateway")) p)
      else finish namespace p

  unfoldable pub generate_manifests : Registry → ManifestsOptions → List Action
  unfolding server_steps create_kustomization gateway_steps with_defaults
  generate_manifests reg opts =
      let namespace = text_or opts.namespace "mcp-hub" in
      let registry = text_or opts.image_registry "registry.harbor.lan/mcp" in
      after_servers reg namespace registry opts.gateway (
        server_steps reg.servers namespace registry
          (record { actions = make_dir out ∷ []; resources = [] }))

-- What a file system makes of the actions: whether all of them worked.
module _ {W : Type 0} (mkdir : String → W → Bool × W) (write : String → Value → W → Bool × W) where
  abbrev pub act : Action → W → Run (Bool × W)
  act (make_dir p) w = returns (mkdir p w)
  act (write_yaml p v) w = returns (write p v w)
  act deref_nil w = panics
  act marshal_error w = returns (false, w)

  abbrev pub go_on : (W → Run (Bool × W)) → Run (Bool × W) → Run (Bool × W)
  go_on rest panics = panics
  go_on rest (returns (false, w)) = returns (false, w)
  go_on rest (returns (true, w)) = rest w

  unfoldable pub run_actions : List Action → W → Run (Bool × W)
  run_actions [] w = returns (true, w)
  run_actions (a ∷ actions) w = go_on (run_actions actions) (act a w)
