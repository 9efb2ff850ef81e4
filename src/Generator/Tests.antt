-- ===== src/Generator/Tests.antt =====
-- A registry of two servers: the theorems of the generator at it.
use text.Mathlib.TextLemmas.{nil-append, cons-append}
use fi_mcp_kit.Base.{
  ℕ, zero, suc, ◌/◌, ◌≡◌, refl, ap, ◌∙◌, String, Bool, true, false, none, some, List, [], ◌∷◌, All,
  arith, cat, ltb, if_cases,
}
use fi_mcp_kit.Base.Decimal.{nth, digit, digits, itoa}
use fi_mcp_kit.Base.Int.{pos}
use fi_mcp_kit.Base.Dict.{lookup, insert}
use fi_mcp_kit.Base.Run.{returns}
use fi_mcp_kit.Base.Text.{has_prefix, strip_prefix, contains_text, replace_text}
use fi_mcp_kit.Base.Value.{Value, str, number}
use fi_mcp_kit.Registry.Types.{Registry, Server, TargetSpec, empty_spec}
use fi_mcp_kit.Registry.Spec.{get_server, get_server_spec}
use fi_mcp_kit.Registry.Query.{is_local_only}
use fi_mcp_kit.Validator.Result.{new_result, has_errors}
use fi_mcp_kit.Validator.Json.{validate_json_semantics}
use fi_mcp_kit.Validator.Formats.{Floats, validate_kilo_semantics}
use fi_mcp_kit.Validator.Dispatch.{get_config_path}
use fi_mcp_kit.Generator.Tokens.{Env, is_valid_secret_reference}
use fi_mcp_kit.Generator.SecretToken.{secret_var, k8s_env_var}
use fi_mcp_kit.Generator.Deployment.{sanitize_name}
use fi_mcp_kit.Generator.Targets.{ConfigOptions, build_target_map}
use fi_mcp_kit.Generator.Configs.{json_config, kilo_config}
use fi_mcp_kit.Generator.Files.{target_file}
use fi_mcp_kit.Generator.TokenLaws.{k8s_env_var-reference}
use fi_mcp_kit.Generator.ConfigLaws.{IsSigned, build_target_map-validate}
use fi_mcp_kit.Generator.Manifests.{ManifestsOptions}
use fi_mcp_kit.Generator.FileLaws.{target_file-get_config_path}

abbrev show_value : Value → String
show_value (str s) = s
show_value (number n) = n
show_value v = "?"

abbrev env : Env
env = record {
  home = "/root";
  expand = λ s. s;
  join_path = λ d p. cat d (cat "/" p);
  show = show_value;
}

abbrev spec : String → TargetSpec
spec command = record empty_spec {
  command = command;
  args = str "${repo}/a" ∷ [];
  env = some (("K", "${HOME}/k") ∷ []);
  timeout = pos 30;
}

abbrev server : String → String → Server
server name command = record {
  name = name;
  url = "";
  categories = [];
  always_allow = [];
  common = some (spec command);
  targets = [];
}

abbrev two : Registry
two = record {
  version = pos 1;
  env_aliases = none;
  servers = some (server "a" "node") ∷ some (server "b" "") ∷ [];
  routing = [];
  platform_permissions = [];
  sandbox_policy = none;
}

abbrev opts : ConfigOptions
opts = record {
  registry_path = "/w/registry.yaml";
  repo_root = "/w";
  hub_mode = false;
  hub_url = "";
  proxy_mode = false;
  proxy_binary = "fi-mcp";
}

abbrev starts_with_minus : String → Bool
starts_with_minus s = has_prefix s "-"

cat_unsigned :
    (s t : String)
    → starts_with_minus s ≡ false
    → starts_with_minus t ≡ false
    → starts_with_minus (cat s t) ≡ false
unfolding has_prefix strip_prefix
cat_unsigned String.[] t h k = ap starts_with_minus (nil-append t) ∙ k
cat_unsigned (String.◌∷◌ c s) t h k = ap starts_with_minus (cons-append c s t) ∙ ground (arith, h)

nth_unsigned :
    (n : ℕ) (ds : List String)
    → All (λ d. starts_with_minus d ≡ false) ds
    → starts_with_minus (nth n ds) ≡ false
unfolding has_prefix strip_prefix
nth_unsigned n [] a = refl
nth_unsigned zero (d ∷ ds) a = a.0
nth_unsigned (suc n) (d ∷ ds) a = nth_unsigned n ds a.1

digit_unsigned : (n : ℕ) → starts_with_minus (digit n) ≡ false
unfolding has_prefix strip_prefix
digit_unsigned n =
    nth_unsigned n ("0" ∷ "1" ∷ "2" ∷ "3" ∷ "4" ∷ "5" ∷ "6" ∷ "7" ∷ "8" ∷ "9" ∷ [])
      (refl, (refl, (refl, (refl, (refl, (refl, (refl, (refl, (refl, (refl, tt))))))))))

digits_unsigned : (f n : ℕ) → starts_with_minus (digits f n) ≡ false
unfolding digits has_prefix strip_prefix
digits_unsigned zero n = refl
digits_unsigned (suc f) n =
    if_cases (λ s. starts_with_minus s ≡ false) (ltb n 10) _ _ (λ e. digit_unsigned n)
      (λ e. cat_unsigned (digits f (n / 10)) _ (digits_unsigned f (n / 10)) (digit_unsigned _))

abbrev floats : Floats
floats = record { negative = starts_with_minus; int_part = λ n. n }

itoa-IsSigned : IsSigned floats
unfolding itoa
itoa-IsSigned n = digits_unsigned (suc n) n

-- The server without a command is left out.
abbrev resolved : TargetSpec
resolved = record empty_spec {
  command = "node";
  args = str "/w/a" ∷ [];
  env = some (("K", "/root/k") ∷ []);
  timeout = pos 30;
}

built : build_target_map env opts "vscode" "vscode" two ≡ returns (("a", resolved) ∷ [], two)
unfolding build_target_map get_server_spec get_server lookup is_local_only insert replace_text
    has_prefix strip_prefix
built = refl

build_target_map-validate_example :
    (has_errors (
        validate_json_semantics
          (json_config env (("a", resolved) ∷ []))
          (new_result "vscode" "mcp.json"))
      ≡ false)
    × (has_errors (
          validate_kilo_semantics floats
            (kilo_config env (("a", resolved) ∷ []))
            (new_result "vscode" "mcp.json"))
        ≡ false)
build_target_map-validate_example =
    build_target_map-validate env opts floats "vscode" "vscode" "mcp.json" two itoa-IsSigned refl
      built (omega arith, tt)

target_file-get_config_path_example :
    (◌≡◌ {A = String} "claude" "claude")
    × ((target_file env (λ s. s) (λ a. "[]") (λ l. "[]") "claude" (("a", resolved) ∷ [])).0
        ≡ "config.toml")
unfolding get_config_path
target_file-get_config_path_example =
    target_file-get_config_path env (λ s. s) (λ a. "[]") (λ l. "[]") "claude" (("a", resolved) ∷ [])
      refl

k8s_env_var-reference_example :
    k8s_env_var env "TOKEN" "${keychain:GITHUB}" ≡ secret_var env "TOKEN" "GITHUB"
unfolding contains_text has_prefix strip_prefix
k8s_env_var-reference_example =
    k8s_env_var-reference env "TOKEN" "keychain" "GITHUB" refl refl refl refl refl

-- Two names of servers with the same directory.
same_directory : sanitize_name (λ s. s) "a_b" ≡ sanitize_name (λ s. s) "a-b"
unfolding sanitize_name replace_text strip_prefix
same_directory = refl

references :
    (is_valid_secret_reference "x ${env:A}" ≡ true) × (is_valid_secret_reference "${env:}" ≡ false)
unfolding is_valid_secret_reference strip_prefix has_prefix
references = (refl, refl)

abbrev manifests : ManifestsOptions
manifests = record {
  namespace = "tools";
  image_registry = "";
  gateway = record {
    enabled = true;
    name = "";
    image = "";
    replicas = pos 0;
    service_port = pos 0;
    ingress_host = "hub.lan";
    ingress_class = "";
    tls_secret = "";
  };
}
