-- ===== src/Router/Resolve.antt =====
-- ResolveServer and matchPattern: which server a tool name belongs to, when the caller names none.
-- GetServerSpec may write into the registry, so the registry is a state here too.
use fi_mcp_kit.Base.{
  String, Bool, true, ◌||◌, Option, none, some, List, [], ◌∷◌, str_eq, cat, if◌then◌else◌,
}
use fi_mcp_kit.Base.Dict.{Dict, lookup}
use fi_mcp_kit.Base.Run.{Run, returns, panics, Eff, ◌>>=◌, pure}
use fi_mcp_kit.Base.Text.{has_prefix, has_suffix, drop_first, drop_last}
use fi_mcp_kit.Base.Value.{Value, str}
use fi_mcp_kit.Registry.Types.{Registry, Server, TargetSpec, RoutingRule, RoutingCase}
use fi_mcp_kit.Registry.Spec.{get_server_spec, spec_allows}
use fi_mcp_kit.Router.Types.{Router}

-- `return name, nil`, the error that names the providers, and `return "", nil`.
pub data Resolution : Type 0 where
  resolved : String → Resolution
  ambiguous : List String → Resolution
  unresolved : Resolution

unfoldable pub match_pattern : String → String → Bool
match_pattern value pattern_text =
    if str_eq pattern_text "*"
    then true
    else if has_suffix pattern_text "*"
    then has_prefix value (drop_last pattern_text)
    else if has_prefix pattern_text "*"
    then has_suffix value (drop_first pattern_text)
    else str_eq value pattern_text

unfoldable pub first_case : String → List RoutingCase → Option String
unfolding match_pattern
first_case value [] = none
first_case value (c ∷ cases) =
    if match_pattern value c.pattern_text then some c.server else first_case value cases

-- `args[rule.Argument].(string)`, and the cases where it is a text.
unfoldable pub case_for : Option Value → List RoutingCase → Option String
unfolding first_case
case_for (some (str value)) cases = first_case value cases
case_for _ cases = none

unfoldable pub rule_server : RoutingRule → Dict Value → Option String
unfolding case_for
rule_server rule args = elim (case_for (lookup rule.argument args) rule.cases) [
  | some server ↦ some server
  | none ↦ if str_eq rule.fallback "" then none else some rule.fallback
]

-- The loop goes on behind a rule that decides nothing.
unfoldable pub by_rules : String → Dict Value → List (Option RoutingRule) → Option String
unfolding rule_server
by_rules tool args [] = none
by_rules tool args (none ∷ rules) = by_rules tool args rules
by_rules tool args (some rule ∷ rules) =
    let later = by_rules tool args rules in
    if str_eq rule.tool_name tool
    then elim (rule_server rule args) [ some server ↦ some server | none ↦ later ]
    else later

unfoldable pub claims : String → Server → Option TargetSpec → Bool
unfolding spec_allows
claims tool s spec = spec_allows tool spec || has_prefix tool (cat s.name "__")

unfoldable pub by_servers : String → String → List (Option Server) → Eff Registry (Option String)
unfolding claims
by_servers profile tool [] = pure none
by_servers profile tool (none ∷ rest) = by_servers profile tool rest
by_servers profile tool (some s ∷ rest) =
    let later = by_servers profile tool rest in
    get_server_spec s.name profile >>= λ spec.
    if claims tool s spec then pure (some s.name) else later

unfoldable pub by_index : Option (List String) → Resolution
by_index none = unresolved
by_index (some []) = unresolved
by_index (some (server ∷ [])) = resolved server
by_index (some (server ∷ other ∷ others)) = ambiguous (server ∷ other ∷ others)

unfoldable pub or_index : Option String → Option (List String) → Resolution
unfolding by_index
or_index (some server) providers = resolved server
or_index none providers = by_index providers

unfoldable pub resolve_in :
    String → String → Option (List String) → Option String → Eff Registry Resolution
unfolding by_servers or_index
resolve_in profile tool providers (some server) reg = returns (resolved server, reg)
resolve_in profile tool providers none reg =
    (do found ← by_servers profile tool reg.servers; pure (or_index found providers)) reg

module _ {A : Type 0} where
  -- The registry, where there is one, may be written to.
  unfoldable pub with_registry :
      Router A → Run (Resolution × Registry) → Run (Resolution × Router A)
  with_registry r panics = panics
  with_registry r (returns (x, reg)) = returns (x, record r { registry = some reg })

  unfoldable pub resolve_with :
      String → String → Dict Value → Option Registry → Eff (Router A) Resolution
  unfolding by_rules resolve_in with_registry
  resolve_with profile tool args none r = returns (unresolved, r)
  resolve_with profile tool args (some reg) r =
      with_registry r
        (resolve_in profile tool (lookup tool r.tool_index) (by_rules tool args reg.routing) reg)

  unfoldable pub resolve_server : String → String → Dict Value → Eff (Router A) Resolution
  unfolding resolve_with
  resolve_server profile tool args r = resolve_with profile tool args r.registry r
