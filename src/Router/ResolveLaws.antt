-- ===== src/Router/ResolveLaws.antt =====
-- ResolveServer against the order of its sources: rules, servers, index.
use fi_mcp_kit.Base.{
  ◌≡◌, ◌≢◌, refl, sym, ◌∙◌, ap, String, Bool, true, false, ◌||◌, Option, none, some, List, [], ◌∷◌,
  arith, cat, contains, if◌then◌else◌,
}
use fi_mcp_kit.Base.Dict.{Dict, lookup}
use fi_mcp_kit.Base.Run.{Run, returns, panics, Eff, ◌>>=◌, pure}
use fi_mcp_kit.Base.Text.{has_prefix}
use fi_mcp_kit.Base.Value.{Value}
use fi_mcp_kit.Registry.Types.{Registry, Server, TargetSpec}
use fi_mcp_kit.Registry.Spec.{
  get_server, over_list, merge_spec, common_spec, target_entry, merged, spec_for, get_server_spec,
  spec_allows,
}
use fi_mcp_kit.Registry.SpecLaws.{strip, own_entry, NoNullEntry, Answers, strip-get_server_spec}
use fi_mcp_kit.Registry.StripLaws.{strip_found, same_found, same-NoNullEntry}
use fi_mcp_kit.Router.Types.{Router}
use fi_mcp_kit.Router.RuleLaws.{ruled, first_of, by_rules-ruled}
use fi_mcp_kit.Router.Resolve.{
  ambiguous, unresolved, by_index, Resolution, resolved, by_rules, claims, by_servers, or_index,
  resolve_in, with_registry, resolve_with, resolve_server,
}

-- The effective list of a server for a profile has the tool, read off the registry.
abbrev pub lists : String → String → Option Server → Bool
lists profile tool none = false
lists profile tool (some s) =
    contains (over_list (common_spec s).always_allow (own_entry (target_entry s profile))) tool

-- The first server that lists the tool for the profile or whose name is the tool's prefix.
abbrev pub owner : Registry → String → String → List (Option Server) → Option String
owner reg profile tool [] = none
owner reg profile tool (none ∷ rest) = owner reg profile tool rest
owner reg profile tool (some s ∷ rest) =
    if lists profile tool (get_server reg s.name) || has_prefix tool (cat s.name "__")
    then some s.name
    else owner reg profile tool rest

-- No server of the registry has a null entry for the profile.
abbrev pub NoNullEntries : String → Registry → Type 0
NoNullEntries profile reg = (n : String) → NoNullEntry profile (get_server reg n)

lists-strip_found :
    (profile tool : String) (o : Option Server)
    → lists profile tool (strip_found o) ≡ lists profile tool o
lists-strip_found profile tool none = refl
lists-strip_found profile tool (some s) = ground arith

same_lists :
    (profile tool n : String) (r r' : Registry)
    → strip r' ≡ strip r
    → lists profile tool (get_server r' n) ≡ lists profile tool (get_server r n)
same_lists profile tool n r r' e =
    sym (lists-strip_found profile tool (get_server r' n))
    ∙ ap (lists profile tool) (same_found n r r' e)
    ∙ lists-strip_found profile tool (get_server r n)

same-NoNullEntries :
    (profile : String) (r r' : Registry)
    → strip r' ≡ strip r
    → NoNullEntries profile r
    → NoNullEntries profile r'
same-NoNullEntries profile r r' e h n = same-NoNullEntry profile n r r' e (h n)

-- What the loop's body gets of a server.
abbrev Spec : String → String → String → Registry → Type 0
Spec n profile tool r =
    (spec : Option TargetSpec) × (r' : Registry) × (get_server_spec n profile r
      ≡ returns (spec, r'))
    × (spec_allows tool spec ≡ lists profile tool (get_server r n))

merged_lem :
    (n tool : String) (spec : TargetSpec) (t : Option (Option TargetSpec)) (r : Registry)
    → t ≢ some none
    → (o : Option TargetSpec) × (r' : Registry) × (merged n spec t r ≡ returns (o, r'))
      × (spec_allows tool o ≡ contains (over_list spec.always_allow (own_entry t)) tool)
unfolding spec_allows merge_spec
merged_lem n tool spec none r h = (some spec, r, refl, refl)
merged_lem n tool spec (some none) r h = absurd (h refl)
merged_lem n tool spec (some (some src)) r h = (_, _, refl, refl)

spec_for_lem :
    (n profile tool : String) (o : Option Server) (r : Registry)
    → NoNullEntry profile o
    → (spec : Option TargetSpec) × (r' : Registry) × (spec_for n profile o r ≡ returns (spec, r'))
      × (spec_allows tool spec ≡ lists profile tool o)
unfolding spec_for spec_allows
spec_for_lem n profile tool none r h = (none, r, refl, refl)
spec_for_lem n profile tool (some s) r h =
    merged_lem n tool (common_spec s) (target_entry s profile) r h

get_server_spec_lem :
    (n profile tool : String) (r : Registry) → NoNullEntries profile r → Spec n profile tool r
unfolding get_server_spec
get_server_spec_lem n profile tool r h = spec_for_lem n profile tool (get_server r n) r (h n)

Answers-if :
    (b : Bool) (n : String) (d : Option String) (m : Eff Registry (Option String)) (r0 r : Registry)
    → strip r ≡ strip r0
    → Answers d r0 (m r)
    → Answers (if b then some n else d) r0 ((if b then pure (some n) else m) r)
Answers-if true n d m r0 r e h = (refl, e)
Answers-if false n d m r0 r e h = h

by_servers_lem :
    (profile tool : String) (l : List (Option Server)) (r0 r : Registry)
    → strip r ≡ strip r0
    → NoNullEntries profile r0
    → Answers (owner r0 profile tool l) r0 (by_servers profile tool l r)
unfolding by_servers
by_servers_lem profile tool [] r0 r e h = (refl, e)
by_servers_lem profile tool (none ∷ rest) r0 r e h = by_servers_lem profile tool rest r0 r e h
by_servers_lem profile tool (some s ∷ rest) r0 r e h =
    let (spec, r', c, a) =
      get_server_spec_lem s.name profile tool r (same-NoNullEntries profile r0 r e h) in
    let rest' =
      by_servers_lem profile tool rest r0 r' (strip-get_server_spec s.name profile r c ∙ e) h in
    rw (c, ◌>>=◌, same_test s spec (a ∙ same_lists profile tool s.name r0 r e))
      (Answers-if (lists profile tool (get_server r0 s.name) || has_prefix tool (cat s.name "__"))
        s.name (owner r0 profile tool rest) (by_servers profile tool rest) r0 r'
        (strip-get_server_spec s.name profile r c ∙ e) rest')
  where
    same_test :
        (x : Server) (o : Option TargetSpec) {b : Bool}
        → spec_allows tool o ≡ b
        → claims tool x o ≡ (b || has_prefix tool (cat x.name "__"))
    same_test x o q = unfold claims in rw q refl

-- The answer behind the rules: the owner, or else the tool's only provider.
abbrev pub owned : Option (List String) → Option String → Resolution
owned providers (some server) = resolved server
owned none none = unresolved
owned (some []) none = unresolved
owned (some (server ∷ [])) none = resolved server
owned (some (server ∷ other ∷ others)) none = ambiguous (server ∷ other ∷ others)

or_index-owned :
    (found : Option String) (providers : Option (List String))
    → or_index found providers ≡ owned providers found
unfolding or_index by_index
or_index-owned (some server) providers = refl
or_index-owned none none = refl
or_index-owned none (some []) = refl
or_index-owned none (some (server ∷ [])) = refl
or_index-owned none (some (server ∷ other ∷ others)) = refl

abbrev answer_of : Option (List String) → Option String → Option String → Resolution
answer_of providers rule found = elim rule [
  | some server ↦ resolved server
  | none ↦ owned providers found
]

-- What a resolution leaves: the registry, but for Env maps, and the rest of the router.
abbrev pub Resolves :
    {A : Type 0} → Resolution → Router A → Registry → Run (Resolution × Router A) → Type 0
Resolves x r reg panics = ⊥
Resolves x r reg (returns (y, r')) =
    (y ≡ x)
    × ((reg' : Registry) × (r' ≡ record r { registry = some reg' }) × (strip reg' ≡ strip reg))

resolve_in_lem :
    (profile tool : String) (providers : Option (List String)) (rule : Option String)
    (reg : Registry)
    → NoNullEntries profile reg
    → Answers
        (answer_of providers rule (owner reg profile tool reg.servers))
        reg
        (resolve_in profile tool providers rule reg)
unfolding resolve_in
resolve_in_lem profile tool providers (some server) reg h = (refl, refl)
resolve_in_lem profile tool providers none reg h =
    chain (by_servers profile tool reg.servers reg)
      (by_servers_lem profile tool reg.servers reg reg refl h)
  where
    chain :
        (x : Run (Option String × Registry))
        → Answers (owner reg profile tool reg.servers) reg x
        → Answers
            (owned providers (owner reg profile tool reg.servers))
            reg
            (elim x [ returns (a, t) ↦ returns (or_index a providers, t) | panics ↦ panics ])
    chain (returns (a, t)) q = (or_index-owned a providers ∙ ap (owned providers) q.0, q.1)
    chain panics q = absurd q

with_registry-Resolves :
    {A : Type 0} (x : Resolution) (r : Router A) (reg : Registry) (m : Run (Resolution × Registry))
    → Answers x reg m
    → Resolves x r reg (with_registry r m)
unfolding with_registry
with_registry-Resolves x r reg (returns (y, reg')) h = (h.0, (reg', refl, h.1))
with_registry-Resolves x r reg panics h = absurd h

-- On a registry without null entries for the profile, ResolveServer returns the first server that the
-- rules of the tool name, rule by rule: that of a rule's first case whose pattern fits the text of the
-- rule's argument, or else its fallback. Without one it returns the first server whose effective list for the profile has the
-- tool or whose name is the tool's prefix, and without one the only server in the tool's index entry; it reports an ambiguity exactly
-- if that entry is reached and names several. It panics never, and changes at most Env maps, which
-- no answer depends on.
pub resolve_server_lem :
    {A : Type 0} (profile tool : String) (args : Dict Value) (r : Router A) (reg : Registry)
    → r.registry ≡ some reg
    → NoNullEntries profile reg
    → Resolves
        (answer_of
          (lookup tool r.tool_index)
          (first_of (ruled tool args reg.routing))
          (owner reg profile tool reg.servers))
        r
        reg
        (resolve_server profile tool args r)
unfolding resolve_server resolve_with
resolve_server_lem profile tool args r reg e h =
    rw (e, sym (by_rules-ruled tool args reg.routing))
      (with_registry-Resolves _ r reg _ (
        resolve_in_lem profile tool (lookup tool r.tool_index) (by_rules tool args reg.routing) reg
          h))
