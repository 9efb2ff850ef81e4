-- ===== src/Router/IndexCount.antt =====
-- How often a server is in the tool index that SetRegistry builds.
use fi_mcp_kit.Base.{
  times, ℕ, ◌+◌, ◌≡◌, refl, String, Option, none, some, List, [], ◌∷◌, ◌++◌, arith, str_eq, eq_iff,
  count_if, count_if-append, if◌then◌else◌,
}
use fi_mcp_kit.Base.Dict.{Dict, lookup, insert, read, read-insert}
use fi_mcp_kit.Base.Run.{Run, returns, panics}
use fi_mcp_kit.Registry.Types.{Server, TargetSpec, ToolSchema}
use fi_mcp_kit.Router.Index.{ToolIndex, tools_of, append_tools, append_targets, append_servers}
use fi_mcp_kit.Router.IndexLaws.{providers}

-- How many declarations of a tool stand in the targets of the servers of a name.
abbrev pub count_tools : String → List ToolSchema → ℕ
count_tools tool = count_if (λ t. str_eq t.name tool)

abbrev pub target_count : String → Dict (Option TargetSpec) → ℕ
target_count tool [] = 0
target_count tool ((target, spec) ∷ rest) =
    count_tools tool (tools_of spec) + target_count tool rest

abbrev pub declarations : String → String → List (Option Server) → ℕ
declarations n tool [] = 0
declarations n tool (none ∷ rest) = declarations n tool rest
declarations n tool (some s ∷ rest) =
    (if str_eq s.name n then target_count tool s.targets else 0) + declarations n tool rest

times-append_tools :
    (n t server : String) (ts : List ToolSchema) (i : ToolIndex)
    → times n (providers t (append_tools server ts i))
      ≡ times n (providers t i) + (if str_eq server n then count_tools t ts else 0)
unfolding append_tools
times-append_tools n t server [] i = ground arith
times-append_tools n t server (x ∷ ts) i = ground (
  arith,
  times-append_tools n t server ts (insert x.name (read [] x.name i ++ (server ∷ [])) i),
  read-insert [] x.name t (read [] x.name i ++ (server ∷ [])) i,
  eq_iff x.name t,
  count_if-append (λ s. str_eq s n) (read [] x.name i) (server ∷ []),
)

times-append_targets :
    (n t server : String) (targets : Dict (Option TargetSpec)) (i : ToolIndex) {j : ToolIndex}
    → append_targets server targets i ≡ returns j
    → times n (providers t j)
      ≡ times n (providers t i) + (if str_eq server n then target_count t targets else 0)
unfolding append_targets
times-append_targets n t server [] i e = ground (arith, e)
times-append_targets n t server ((target, none) ∷ rest) i e = cc
times-append_targets n t server ((target, some spec) ∷ rest) i e = ground (
  arith,
  times-append_targets n t server rest (append_tools server spec.tools i) e,
  times-append_tools n t server spec.tools i,
)

times-append_servers :
    (n t : String) (servers : List (Option Server)) (i : ToolIndex) {j : ToolIndex}
    → append_servers servers i ≡ returns j
    → times n (providers t j) ≡ times n (providers t i) + declarations n t servers
unfolding append_servers
times-append_servers n t [] i e = ground (arith, e)
times-append_servers n t (none ∷ rest) i e = cc
times-append_servers n t (some s ∷ rest) i {j} e =
    chain (append_targets s.name s.targets i) refl (λ k. times-append_servers n t rest k) e
  where
    chain :
        (x : Run ToolIndex)
        → append_targets s.name s.targets i ≡ x
        → ((k : ToolIndex)
            → append_servers rest k ≡ returns j
            → times n (providers t j) ≡ times n (providers t k) + declarations n t rest)
        → (elim x [ returns k ↦ append_servers rest k | panics ↦ panics ]) ≡ returns j
        → times n (providers t j) ≡ times n (providers t i) + declarations n t (some s ∷ rest)
    chain (returns k) h ih g = omega (arith, ih k g, times-append_targets n t s.name s.targets i h)
    chain panics h ih g = cc

-- The index of SetRegistry, where it is built without a panic, names a server for a tool as often as
-- servers of that name declare the tool in their targets, and never for what only the common spec
-- declares.
pub append_servers_lem :
    (n tool : String) (servers : List (Option Server)) {i : ToolIndex}
    → append_servers servers [] ≡ returns i
    → times n (providers tool i) ≡ declarations n tool servers
unfolding read lookup
append_servers_lem n tool servers e = omega (arith, times-append_servers n tool servers [] e)
