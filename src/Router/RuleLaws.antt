-- ===== src/Router/RuleLaws.antt =====
-- What the routing rules of pkg/router/router.go say of a call.
use fi_mcp_kit.Base.{
  ◌≡◌, refl, ap, ◌∙◌, String, Bool, true, false, ◌||◌, ◌&&◌, not, Option, none, some, List, [], ◌∷◌,
  ◌++◌, arith, str_eq, if◌then◌else◌,
}
use fi_mcp_kit.Base.Dict.{Dict, lookup}
use fi_mcp_kit.Base.Text.{has_prefix, has_suffix, drop_first, drop_last}
use fi_mcp_kit.Base.Value.{Value, str, object, array, number, truth, nil_value}
use fi_mcp_kit.Registry.Types.{RoutingRule, RoutingCase}
use fi_mcp_kit.Router.Resolve.{match_pattern, first_case, case_for, rule_server, by_rules}

-- Whether a pattern fits a value: "*" fits all, a star at its end stands for any end, one at its start
-- alone for any start.
abbrev pub fits : String → String → Bool
fits value p =
    str_eq p "*"
    || (has_suffix p "*" && has_prefix value (drop_last p))
    || (not (has_suffix p "*") && has_prefix p "*" && has_suffix value (drop_first p))
    || (not (has_suffix p "*") && not (has_prefix p "*") && str_eq value p)

abbrev pub case_servers : String → List RoutingCase → List String
case_servers value [] = []
case_servers value (c ∷ cases) =
    if fits value c.pattern_text
    then c.server ∷ case_servers value cases
    else case_servers value cases

-- The servers that a rule names for a call, the first choice first: those of the cases that fit its
-- argument, where it is a text, and the fallback, where there is one.
abbrev pub choices : RoutingRule → Option Value → List String
choices rule (some (str value)) =
    case_servers value rule.cases ++ (if str_eq rule.fallback "" then [] else rule.fallback ∷ [])
choices rule _ = if str_eq rule.fallback "" then [] else rule.fallback ∷ []

-- The servers that the rules of a tool name, rule by rule.
abbrev pub ruled : String → Dict Value → List (Option RoutingRule) → List String
ruled tool args [] = []
ruled tool args (none ∷ rules) = ruled tool args rules
ruled tool args (some rule ∷ rules) =
    if str_eq rule.tool_name tool
    then choices rule (lookup rule.argument args) ++ ruled tool args rules
    else ruled tool args rules

abbrev pub first_of : List String → Option String
first_of [] = none
first_of (x ∷ l) = some x

match_pattern-fits : (value p : String) → match_pattern value p ≡ fits value p
unfolding match_pattern
match_pattern-fits value p = ground arith

first_case-servers :
    (value : String) (cases : List RoutingCase)
    → first_case value cases ≡ first_of (case_servers value cases)
unfolding first_case
first_case-servers value [] = refl
first_case-servers value (c ∷ cases) =
    ground (arith, match_pattern-fits value c.pattern_text, first_case-servers value cases)

or_fallback :
    (l : List String) (fallback : String)
    → elim (first_of l) [
      | some server ↦ some server
      | none ↦ if str_eq fallback "" then none else some fallback
    ]
      ≡ first_of (l ++ (if str_eq fallback "" then [] else fallback ∷ []))
or_fallback [] fallback = ground arith
or_fallback (x ∷ l) fallback = refl

case_for-choices :
    (rule : RoutingRule) (o : Option Value)
    → elim (case_for o rule.cases) [
      | some server ↦ some server
      | none ↦ if str_eq rule.fallback "" then none else some rule.fallback
    ]
      ≡ first_of (choices rule o)
unfolding case_for
case_for-choices rule (some (str value)) =
    rw (first_case-servers value rule.cases)
      (or_fallback (case_servers value rule.cases) rule.fallback)
case_for-choices rule (some (object m)) = or_fallback [] rule.fallback
case_for-choices rule (some (array vs)) = or_fallback [] rule.fallback
case_for-choices rule (some (number n)) = or_fallback [] rule.fallback
case_for-choices rule (some (truth b)) = or_fallback [] rule.fallback
case_for-choices rule (some nil_value) = or_fallback [] rule.fallback
case_for-choices rule none = or_fallback [] rule.fallback

first_of-append :
    (l k : List String)
    → elim (first_of l) [ some server ↦ some server | none ↦ first_of k ] ≡ first_of (l ++ k)
first_of-append [] k = elim k [ [] ↦ refl | _ ↦ refl ]
first_of-append (x ∷ l) k = refl

decided :
    (applies : Bool) {o later : Option String} (l k : List String)
    → o ≡ first_of l
    → later ≡ first_of k
    → (if applies then elim o [ some server ↦ some server | none ↦ later ] else later)
      ≡ first_of (if applies then l ++ k else k)
decided true {o} {later} l k e h =
    ap (λ (x : Option String). elim x [ some server ↦ some server | none ↦ later ]) e
    ∙ ap (λ (y : Option String). elim (first_of l) [ some server ↦ some server | none ↦ y ]) h
    ∙ first_of-append l k
decided false l k e h = h

pub by_rules-ruled :
    (tool : String) (args : Dict Value) (rules : List (Option RoutingRule))
    → by_rules tool args rules ≡ first_of (ruled tool args rules)
unfolding by_rules rule_server
by_rules-ruled tool args [] = refl
by_rules-ruled tool args (none ∷ rules) = by_rules-ruled tool args rules
by_rules-ruled tool args (some rule ∷ rules) =
    decided (str_eq rule.tool_name tool) (choices rule (lookup rule.argument args))
      (ruled tool args rules) (case_for-choices rule (lookup rule.argument args))
      (by_rules-ruled tool args rules)
