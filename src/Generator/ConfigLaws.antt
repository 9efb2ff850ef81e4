-- ===== src/Generator/ConfigLaws.antt =====
-- The files of pkg/generator/configs.go against the checks of pkg/validator: the structure of what is
-- generated, and where it stands.
use fi_mcp_kit.Base.{
  ◌≤◌, ℕ, zero, suc, ◌*◌, ◌≡◌, refl, ◌∙◌, ap, subst, String, Bool, true, false, ◌&&◌, Option, none,
  some, List, [], ◌∷◌, ◌++◌, All, arith, str_eq,
}
use fi_mcp_kit.Base.Decimal.{itoa}
use fi_mcp_kit.Base.Dict.{Dict}
use fi_mcp_kit.Base.Int.{ℤ, pos, negsuc}
use fi_mcp_kit.Base.Run.{Run, returns}
use fi_mcp_kit.Base.Value.{Value, members_of, strs, truth, str, with_member, member, as_string}
use fi_mcp_kit.Registry.Types.{Registry, TargetSpec}
use fi_mcp_kit.Validator.Adds.{all_servers, Adds}
use fi_mcp_kit.Validator.Result.{ValidationResult, new_result, has_errors}
use fi_mcp_kit.Validator.Json.{json_servers, validate_json_semantics}
use fi_mcp_kit.Validator.Formats.{negative_timeout, Floats, validate_kilo_semantics}
use fi_mcp_kit.Validator.Accepts.{
  is_none, server_ok, json_ok, validate_json_semantics-Adds, kilo_server_ok, kilo_ok,
  validate_kilo_semantics-Adds,
}
use fi_mcp_kit.Generator.Tokens.{Env}
use fi_mcp_kit.Generator.Targets.{ConfigOptions, build_target_map}
use fi_mcp_kit.Generator.Configs.{
  shown, env_entry, json_server, servers_with, json_config, int64_max, wrap_int, timeout_entry,
  kilo_server, kilo_config,
}
use fi_mcp_kit.Generator.TargetLaws.{HasCommand, Commands, build_target_map-Commands}

json_server_ok :
    (command : String) (args : List String) (e : Option (Dict String))
    → str_eq command "" ≡ false
    → server_ok (
        with_member "command"
          (str command)
          (with_member "args" (strs args) (members_of (env_entry "env" e))))
      ≡ true
unfolding member as_string
json_server_ok command args none h = ground (arith, h)
json_server_ok command args (some []) h = ground (arith, h)
json_server_ok command args (some (x ∷ d)) h = ground (arith, h)

-- A number that is not negative is read as such.
abbrev pub IsSigned : Floats → Type 0
IsSigned floats = (n : ℕ) → floats.negative (itoa n) ≡ false

-- A timeout in seconds whose milliseconds an int holds.
abbrev pub IsShort : ℤ → Type 0
IsShort (pos n) = n * 1000 ≤ int64_max
IsShort (negsuc n) = Unit

wrap_int_small : (n : ℕ) → n ≤ int64_max → wrap_int n ≡ pos n
unfolding wrap_int
wrap_int_small n h = ground (arith, h)

-- The timeout that the validator looks for in an entry.
abbrev limit_of : List (String × Value) → Option Value
limit_of l = member "timeout" (members_of l)

timeout_ok :
    (floats : Floats) (t : ℤ)
    → IsSigned floats
    → IsShort t
    → is_none floats (negative_timeout floats (limit_of (timeout_entry t))) ≡ true
unfolding member
timeout_ok floats (pos zero) sign h = refl
timeout_ok floats (negsuc n) sign h = refl
timeout_ok floats (pos (suc n)) sign h =
    rw (wrap_int_small (suc n * 1000) h) (ground (arith, sign (suc n * 1000)))

kilo_server_is_ok :
    (floats : Floats) (command : String) (args : List String) (e : Option (Dict String)) (t : ℤ)
    → IsSigned floats
    → IsShort t
    → str_eq command "" ≡ false
    → kilo_server_ok floats (
        with_member "type" (str "local") (
          with_member "command"
            (strs (command ∷ args))
            (members_of (env_entry "environment" e ++ ("enabled", truth true) ∷ timeout_entry t))))
      ≡ true
unfolding member as_string
kilo_server_is_ok floats command args none t sign short h =
    ground (arith, h, timeout_ok floats t sign short)
kilo_server_is_ok floats command args (some []) t sign short h =
    ground (arith, h, timeout_ok floats t sign short)
kilo_server_is_ok floats command args (some (x ∷ d)) t sign short h =
    ground (arith, h, timeout_ok floats t sign short)

-- A spec whose timeout is short.
abbrev pub HasShort : String × TargetSpec → Type 0
HasShort e = IsShort e.1.timeout

module _ (env : Env) where
  json_servers_ok :
      (specs : Dict TargetSpec)
      → All HasCommand specs
      → all_servers server_ok (servers_with env (json_server env) specs) ≡ true
  unfolding json_server
  json_servers_ok [] a = refl
  json_servers_ok ((name, spec) ∷ specs) a =
      let p = json_server_ok spec.command (shown env spec.args) spec.env a.0 in
      ap (λ (b : Bool). b && all_servers server_ok (servers_with env (json_server env) specs)) p
      ∙ json_servers_ok specs a.1

  kilo_servers_ok :
      (floats : Floats) (specs : Dict TargetSpec)
      → IsSigned floats
      → All HasShort specs
      → All HasCommand specs
      → all_servers (kilo_server_ok floats) (servers_with env (kilo_server env) specs) ≡ true
  unfolding kilo_server
  kilo_servers_ok floats [] sign b a = refl
  kilo_servers_ok floats ((name, spec) ∷ specs) sign b a =
      let p =
        kilo_server_is_ok floats spec.command (shown env spec.args) spec.env spec.timeout sign b.0
          a.0 in
      ap
        (λ (b : Bool).
          b && all_servers (kilo_server_ok floats) (servers_with env (kilo_server env) specs))
        p
      ∙ kilo_servers_ok floats specs sign b.1 a.1

  json_config_ok :
      (specs : Dict TargetSpec) → All HasCommand specs → json_ok (json_config env specs) ≡ true
  unfolding json_config json_servers member
  json_config_ok specs a = json_servers_ok specs a

  kilo_config_ok :
      (floats : Floats) (specs : Dict TargetSpec)
      → IsSigned floats
      → All HasShort specs
      → All HasCommand specs
      → kilo_ok floats (kilo_config env specs) ≡ true
  unfolding kilo_config member
  kilo_config_ok floats specs sign b a = kilo_servers_ok floats specs sign b a

no_errors :
    (r r' : ValidationResult) (ok : Bool)
    → Adds r r' ok
    → has_errors r ≡ false
    → ok ≡ true
    → has_errors r' ≡ false
no_errors r r' ok p h e = ground (arith, p, h, e)

new_clean : (target file : String) → has_errors (new_result target file) ≡ false
unfolding has_errors
new_clean target file = refl

kept_specs :
    {specs : Dict TargetSpec} {r : Registry} {x : Run (Dict TargetSpec × Registry)}
    → Commands x
    → x ≡ returns (specs, r)
    → All HasCommand specs
kept_specs c e = subst Commands e c

module _ (env : Env) (opts : ConfigOptions) (floats : Floats) where
  -- Outside proxy mode, the mcp.json and the kilo.json that are generated from the servers of a target
  -- pass the semantic checks of the validator without an error, for any registry and target, if the
  -- timeouts of the servers in milliseconds fit an int of 64 bits and a decimal without a sign is read
  -- as a number that is not negative.
  pub build_target_map-validate :
      (target profile file : String) (r : Registry) {specs : Dict TargetSpec} {r' : Registry}
      → IsSigned floats
      → opts.proxy_mode ≡ false
      → build_target_map env opts target profile r ≡ returns (specs, r')
      → All HasShort specs
      → (has_errors (validate_json_semantics (json_config env specs) (new_result target file))
          ≡ false)
        × (has_errors
              (validate_kilo_semantics floats (kilo_config env specs) (new_result target file))
            ≡ false)
  build_target_map-validate target profile file r {specs} sign direct e short =
      let start = new_result target file in
      let a = kept_specs (build_target_map-Commands env opts target profile r direct) e in
      (
        no_errors start _ _ (validate_json_semantics-Adds (json_config env specs) start)
            (new_clean target file) (json_config_ok env specs a),
        no_errors start _ _ (validate_kilo_semantics-Adds floats (kilo_config env specs) start)
            (new_clean target file) (kilo_config_ok env floats specs sign short a),
      )
