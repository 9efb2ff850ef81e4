-- ===== src/Router/IndexLaws.antt =====
-- Who is in the tool index, as BuildToolIndex and as SetRegistry build it.
use fi_mcp_kit.Base.{
  ◌≤◌, ◌≡◌, refl, String, Bool, false, ◌&&◌, ◌||◌, Option, none, some, List, [], ◌∷◌, ◌++◌, arith,
  str_eq, eq_iff, contains, any_of, count_if-append, contains-append, times, times_absent,
}
use fi_mcp_kit.Base.Dict.{Dict, lookup, read, lookup-insert}
use fi_mcp_kit.Registry.Types.{Registry, Server, TargetSpec, ToolSchema}
use fi_mcp_kit.Router.Index.{
  ToolIndex, add_provider, add_tool_to_index, add_tools, tools_of, add_targets, add_servers,
  index_of,
}

-- The servers that the index names for a tool, and how often it names one of them.
abbrev pub providers : String → ToolIndex → List String
providers tool i = read [] tool i

-- A tool's declarations, by a server.
abbrev pub offers : String → List ToolSchema → Bool
offers tool = any_of (λ t. str_eq t.name tool)

abbrev pub offers_in_targets : String → Dict (Option TargetSpec) → Bool
offers_in_targets tool [] = false
offers_in_targets tool ((target, spec) ∷ rest) =
    offers tool (tools_of spec) || offers_in_targets tool rest

-- Some server of that name declares the tool, in its common spec or for some target.
abbrev pub declares : String → String → List (Option Server) → Bool
declares n tool [] = false
declares n tool (none ∷ rest) = declares n tool rest
declares n tool (some s ∷ rest) =
    (str_eq s.name n && (offers tool (tools_of s.common) || offers_in_targets tool s.targets))
    || declares n tool rest

abbrev pub present : String → String → ToolIndex → Bool
present n tool i = contains (providers tool i) n

present-add_provider :
    (n tool t server : String) (i : ToolIndex) (o : Option (List String))
    → lookup tool i ≡ o
    → present n t (add_provider tool server i o)
      ≡ (present n t i || (str_eq tool t && str_eq server n))
unfolding add_provider read
present-add_provider n tool t server i none e =
    ground (arith, e, lookup-insert tool t (server ∷ []) i, eq_iff tool t)
present-add_provider n tool t server i (some servers) e = ground (
  arith,
  e,
  lookup-insert tool t (servers ++ (server ∷ [])) i,
  eq_iff tool t,
  eq_iff server n,
  contains-append n server servers,
)

present-add :
    (n tool t server : String) (i : ToolIndex)
    → present n t (add_tool_to_index tool server i)
      ≡ (present n t i || (str_eq tool t && str_eq server n))
unfolding add_tool_to_index
present-add n tool t server i = present-add_provider n tool t server i (lookup tool i) refl

abbrev pub IsOnce : String → String → ToolIndex → Type 0
IsOnce n tool i = times n (providers tool i) ≤ 1

add_provider-IsOnce :
    (n tool t server : String) (i : ToolIndex) (o : Option (List String))
    → lookup tool i ≡ o
    → IsOnce n t i
    → IsOnce n t (add_provider tool server i o)
unfolding add_provider read
add_provider-IsOnce n tool t server i none e h =
    ground (arith, h, e, lookup-insert tool t (server ∷ []) i, eq_iff tool t)
add_provider-IsOnce n tool t server i (some servers) e h = ground (
  arith,
  h,
  e,
  lookup-insert tool t (servers ++ (server ∷ [])) i,
  eq_iff tool t,
  eq_iff server n,
  times_absent n servers,
  count_if-append (λ s. str_eq s n) servers (server ∷ []),
)

add-IsOnce :
    (n tool t server : String) (i : ToolIndex)
    → IsOnce n t i
    → IsOnce n t (add_tool_to_index tool server i)
unfolding add_tool_to_index
add-IsOnce n tool t server i h = add_provider-IsOnce n tool t server i (lookup tool i) refl h

add_tools_lem :
    (n t server : String) (ts : List ToolSchema) (i : ToolIndex)
    → (present n t (add_tools server ts i) ≡ (present n t i || (offers t ts && str_eq server n)))
      × (IsOnce n t i → IsOnce n t (add_tools server ts i))
unfolding add_tools
add_tools_lem n t server [] i = (ground arith, λ h. h)
add_tools_lem n t server (x ∷ ts) i =
    let (p, o) = add_tools_lem n t server ts (add_tool_to_index x.name server i) in
    (ground (arith, p, present-add n x.name t server i), λ h. o (add-IsOnce n x.name t server i h))

add_targets_lem :
    (n t server : String) (targets : Dict (Option TargetSpec)) (i : ToolIndex)
    → (present n t (add_targets server targets i)
        ≡ (present n t i || (offers_in_targets t targets && str_eq server n)))
      × (IsOnce n t i → IsOnce n t (add_targets server targets i))
unfolding add_targets
add_targets_lem n t server [] i = (ground arith, λ h. h)
add_targets_lem n t server ((target, spec) ∷ rest) i =
    let (q, k) = add_tools_lem n t server (tools_of spec) i in
    let (p, o) = add_targets_lem n t server rest (add_tools server (tools_of spec) i) in
    (ground (arith, p, q), λ h. o (k h))

add_servers_lem :
    (n t : String) (servers : List (Option Server)) (i : ToolIndex)
    → (present n t (add_servers servers i) ≡ (present n t i || declares n t servers))
      × (IsOnce n t i → IsOnce n t (add_servers servers i))
unfolding add_servers
add_servers_lem n t [] i = (ground arith, λ h. h)
add_servers_lem n t (none ∷ rest) i = add_servers_lem n t rest i
add_servers_lem n t (some s ∷ rest) i =
    let j = add_tools s.name (tools_of s.common) i in
    let (q, k) = add_tools_lem n t s.name (tools_of s.common) i in
    let (q', k') = add_targets_lem n t s.name s.targets j in
    let (p, o) = add_servers_lem n t rest (add_targets s.name s.targets j) in
    (ground (arith, p, q, q'), λ h. o (k' (k h)))

-- The index of BuildToolIndex names a server for a tool exactly if a server of that name declares
-- the tool, in its common spec or for a target, and then once.
pub index_of_lem :
    (n tool : String) (r : Registry)
    → (contains (providers tool (index_of r)) n ≡ declares n tool r.servers)
      × (times n (providers tool (index_of r)) ≤ 1)
unfolding index_of read lookup
index_of_lem n tool r = let (p, o) = add_servers_lem n tool r.servers [] in (p, o (omega arith))
