-- ===== src/Router/Tests.antt =====
-- A router on the registry of Registry/Tests, its runs, and the theorems of the router at it. A
-- latency is a number here.
use fi_mcp_kit.Base.{
  times, ℕ, ◌+◌, ◌*◌, ◌/◌, ◌≤◌, ◌≡◌, refl, false, true, some, List, [], ◌∷◌, arith, contains, eqb,
  leb, str_eq, if_cases, if◌then◌else◌,
}
use fi_mcp_kit.Base.Dict.{Dict, lookup, insert, read}
use fi_mcp_kit.Base.Int.{pos}
use fi_mcp_kit.Base.Run.{returns}
use fi_mcp_kit.Base.Text.{has_prefix, has_suffix, drop_last}
use fi_mcp_kit.Base.Value.{str}
use fi_mcp_kit.Registry.SpecLaws.{NoNullEntry}
use fi_mcp_kit.Registry.Types.{Registry, RoutingRule}
use fi_mcp_kit.Registry.Spec.{find_server, get_server}
use fi_mcp_kit.Registry.Tests.{two_servers}
use fi_mcp_kit.Router.Health.{Health, Limits, is_healthy, new_health}
use fi_mcp_kit.Router.Index.{
  ToolIndex, add_provider, add_tool_to_index, add_tools, add_targets, add_servers, index_of,
  append_tools, append_targets, append_servers,
}
use fi_mcp_kit.Router.Types.{Router, Config, local, new, new_with, bare, all_healthy, or_default}
use fi_mcp_kit.Router.Route.{route}
use fi_mcp_kit.Router.Resolve.{
  resolved, or_index, by_rules, rule_server, case_for, first_case, match_pattern, resolve_server,
}
use fi_mcp_kit.Router.Breaker.{success, failure, after, is_healthy-after}
use fi_mcp_kit.Router.IndexLaws.{providers, declares, index_of_lem}
use fi_mcp_kit.Router.RouteLaws.{Decides, named_in, choice_for, IsCovered}
use fi_mcp_kit.Router.History.{Event, failed, run, route-run}
use fi_mcp_kit.Router.ResolveLaws.{Resolves, NoNullEntries, resolve_server_lem}

abbrev settings : Config
settings = record {
  registry = some two_servers;
  hub_enabled = true;
  hub_url = "";
  failure_threshold = pos 0;
  recovery_time = pos 0;
}

abbrev all_good : Dict (Health ℕ)
all_good = ("git", new_health 0) ∷ ("web", new_health 0) ∷ []

abbrev index : ToolIndex
index = ("status", "git" ∷ []) ∷ ("log", "git" ∷ "web" ∷ []) ∷ []

abbrev pub started : Router ℕ
started = record {
  registry = some two_servers;
  local_health = all_good;
  hub_health = all_good;
  hub_enabled = true;
  hub_url = "";
  limits = record { failure_threshold = 3; recovery_time = 30_000_000_000 };
  tool_index = index;
}

starts : new 0 settings ≡ returns started
unfolding new new_with bare or_default all_healthy insert index_of add_servers add_targets add_tools
    add_tool_to_index add_provider lookup
starts = refl

index_of_lem_example :
    (contains (providers "log" (index_of two_servers)) "web"
      ≡ declares "web" "log" two_servers.servers)
    × (times "web" (providers "log" (index_of two_servers)) ≤ 1)
index_of_lem_example = index_of_lem "web" "log" two_servers

-- SetRegistry's index of the same registry: no tool of a common spec.
swapped : append_servers two_servers.servers [] ≡ returns (("log", "git" ∷ "web" ∷ []) ∷ [])
unfolding append_servers append_targets append_tools insert read lookup
swapped = refl

abbrev small : Limits
small = record { failure_threshold = 2; recovery_time = 100 }

is_healthy-after_example :
    is_healthy small 60 (
      some (
        after 0
          (eqb 0)
          (λ old now. (old * 4 + now) / 5)
          small
          false
          (failure 50 "refused" ∷ failure 40 "refused" ∷ success 30 7 ∷ [])))
    ≡ (if leb 2 2 then leb 100 10 else true)
is_healthy-after_example =
    is_healthy-after 0 (eqb 0) (λ old now. (old * 4 + now) / 5) small false
      (failure 50 "refused" ∷ failure 40 "refused" ∷ success 30 7 ∷ []) 60 (omega arith)

covered : IsCovered started.registry started
unfolding lookup
covered = (ground arith, ground arith, (ground arith, ground arith, tt))

-- A router that was made on an empty registry and given another.
abbrev late : Router ℕ
late = record started { local_health = []; hub_health = [] }

abbrev bad_news : List (Event ℕ)
bad_news =
    failed "web" local "refused" 1
    ∷ failed "web" local "refused" 2
    ∷ failed "web" local "refused" 3
    ∷ []

abbrev after_bad_news : Router ℕ
after_bad_news = run 0 (eqb 0) (λ old now. (old * 4 + now) / 5) bad_news started

route-run_example :
    Decides "web"
      (choice_for 5 "web" after_bad_news (named_in "web" after_bad_news.registry))
      (route "web" 5 after_bad_news)
route-run_example =
    route-run 0 (eqb 0) (λ old now. (old * 4 + now) / 5) settings started bad_news "web" 5 starts

abbrev routing_rule : RoutingRule
routing_rule = record {
  tool_name = "ask";
  argument = "model";
  cases = record { pattern_text = "gpt-*"; server = "web" } ∷ [];
  fallback = "git";
}

abbrev ruled : Registry
ruled = record two_servers { routing = some routing_rule ∷ [] }

abbrev ruled_router : Router ℕ
ruled_router = record started { registry = some ruled }

rule_wins : by_rules "ask" (("model", str "gpt-4") ∷ []) ruled.routing ≡ some "web"
unfolding by_rules rule_server case_for first_case match_pattern has_suffix has_prefix drop_last
    lookup
rule_wins = refl

no_null : NoNullEntries "dev" ruled
unfolding get_server find_server lookup
no_null n =
    if_cases (NoNullEntry "dev") (str_eq "git" n) _ _ (λ e g. ground (arith, g))
      (λ e. if_cases (NoNullEntry "dev") (str_eq "web" n) _ _ (λ f g. ground (arith, g)) (λ f. tt))

resolve_server_lem_example :
    Resolves (resolved "git") ruled_router ruled (resolve_server "dev" "status" [] ruled_router)
unfolding or_index by_rules get_server find_server lookup
resolve_server_lem_example = resolve_server_lem "dev" "status" [] ruled_router ruled refl no_null
