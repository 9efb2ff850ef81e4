-- ===== src/Router/RouteLaws.antt =====
-- Where Route sends a request, and when it panics.
use fi_mcp_kit.Base.{
  ℕ, ◌≡◌, ◌≢◌, refl, inl, inr, String, Bool, ◌&&◌, Option, none, some, List, [], ◌∷◌, arith, str_eq,
  eq_iff, if◌then◌else◌, Bool-cases, Option-cases,
}
use fi_mcp_kit.Base.Dict.{Dict, lookup, insert, lookup-insert}
use fi_mcp_kit.Base.Run.{Run, returns, panics}
use fi_mcp_kit.Registry.Types.{Registry, Server}
use fi_mcp_kit.Registry.Query.{is_local_only}
use fi_mcp_kit.Router.Health.{Health, is_healthy}
use fi_mcp_kit.Router.Types.{Router, RouteDecision, Target, local, hub, unavailable}
use fi_mcp_kit.Router.Route.{first_named, server_in, route_found, route}

-- The intended choice, with no pointers and no reasons.
abbrev pub choice : Bool → Bool → Bool → Bool → Target
choice local_only local_ok hub_enabled hub_ok =
    if local_ok
    then local
    else if local_only
    then unavailable
    else if hub_enabled && hub_ok
    then hub
    else unavailable

abbrev pub choice_for : {A : Type 0} → ℕ → String → Router A → Option Server → Target
choice_for now n r none = if r.hub_enabled then hub else unavailable
choice_for now n r (some s) =
    choice (is_local_only s) (is_healthy r.limits now (lookup n r.local_health)) r.hub_enabled
      (is_healthy r.limits now (lookup n r.hub_health))

abbrev pub Decides : String → Target → Run RouteDecision → Type 0
Decides n t (returns d) = (d.target ≡ t) × (d.server_name ≡ n)
Decides n t panics = ⊥

-- Every server of the registry has an entry on both sides, and none is null.
abbrev pub Has : {A : Type 0} → String → Dict (Health A) → Type 0
Has n m = lookup n m ≢ none

abbrev pub Covered :
    {A : Type 0} → List (Option Server) → Dict (Health A) → Dict (Health A) → Type 0
Covered [] l h = Unit
Covered (none ∷ rest) l h = ⊥
Covered (some s ∷ rest) l h = Has s.name l × Has s.name h × Covered rest l h

abbrev pub IsCovered : {A : Type 0} → Option Registry → Router A → Type 0
IsCovered none r = Unit
IsCovered (some reg) r = Covered reg.servers r.local_health r.hub_health

-- The first server of a name, where no entry is null.
abbrev pub named : String → List (Option Server) → Option Server
named n [] = none
named n (none ∷ rest) = named n rest
named n (some s ∷ rest) = if str_eq s.name n then some s else named n rest

abbrev pub named_in : String → Option Registry → Option Server
named_in n none = none
named_in n (some reg) = named n reg.servers

abbrev FoundWith :
    {A : Type 0} → String → Option Server → Dict (Health A) → Dict (Health A) → Type 0
FoundWith n none l h = Unit
FoundWith n (some s) l h = Has n l × Has n h

module _ {A : Type 0} where
  found-Covered :
      (n : String) (servers : List (Option Server)) (l h : Dict (Health A))
      → Covered servers l h
      → (first_named n servers ≡ returns (named n servers)) × FoundWith n (named n servers) l h
  unfolding first_named
  found-Covered n [] l h c = (refl, tt)
  found-Covered n (none ∷ rest) l h c = absurd c
  found-Covered n (some s ∷ rest) l h c = elim (Bool-cases (str_eq s.name n)) [
    | inl e ↦ simp e (refl, let p = (eq_iff s.name n).0 e in rw (← p) (c.0, c.1))
    | inr e ↦ simp e (found-Covered n rest l h c.2)
  ]

  route_found_lem :
      (n : String) (now : ℕ) (r : Router A) (o : Option Server)
      → FoundWith n o r.local_health r.hub_health
      → Decides n (choice_for now n r o) (route_found n now r (returns o))
  unfolding route_found is_healthy
  route_found_lem n now r none f = ground arith
  route_found_lem n now r (some s) f = elim (Option-cases (lookup n r.local_health)) [
    | inl e ↦ absurd (f.0 e)
    | inr (l, el) ↦ elim (Option-cases (lookup n r.hub_health)) [
      | inl e ↦ absurd (f.1 e)
      | inr (h, eh) ↦ simp (el, eh) (ground arith)
    ]
  ]

  found_in :
      (n : String) (o : Option Registry) (r : Router A)
      → IsCovered o r
      → (server_in n o ≡ returns (named_in n o))
        × FoundWith n (named_in n o) r.local_health r.hub_health
  unfolding server_in
  found_in n none r c = (refl, tt)
  found_in n (some reg) r c = found-Covered n reg.servers r.local_health r.hub_health c

  -- If every server of the registry has a health entry on both sides and none is null, Route never
  -- panics, names the server that was asked for, and chooses: the local side where it is healthy;
  -- otherwise nothing for a local-only server; otherwise the hub where it is enabled and healthy for
  -- that server; otherwise nothing. A server that the registry lacks goes to the hub where that is
  -- enabled.
  pub route_lem :
      (n : String) (now : ℕ) (r : Router A)
      → IsCovered r.registry r
      → Decides n (choice_for now n r (named_in n r.registry)) (route n now r)
  unfolding route
  route_lem n now r c =
      let (e, f) = found_in n r.registry r c in
      rw e (route_found_lem n now r (named_in n r.registry) f)

  -- Route panics for every server of the registry that has no health entry on the local side,
  -- whatever the hub could do for it.
  pub route-eq-panics :
      (n : String) (now : ℕ) (r : Router A) (s : Server)
      → server_in n r.registry ≡ returns (some s)
      → lookup n r.local_health ≡ none
      → route n now r ≡ panics
  unfolding route is_healthy
  route-eq-panics n now r s e m = rw e (simp m (ground arith))

  pub Covered-insert_left :
      (k : String) (x : Health A) (servers : List (Option Server)) (l h : Dict (Health A))
      → Covered servers l h
      → Covered servers (insert k x l) h
  Covered-insert_left k x [] l h c = tt
  Covered-insert_left k x (none ∷ rest) l h c = absurd c
  Covered-insert_left k x (some s ∷ rest) l h c = (
    λ e. ground (arith, lookup-insert k s.name x l, e, c.0),
    c.1,
    Covered-insert_left k x rest l h c.2,
  )

  pub Covered-insert_right :
      (k : String) (x : Health A) (servers : List (Option Server)) (l h : Dict (Health A))
      → Covered servers l h
      → Covered servers l (insert k x h)
  Covered-insert_right k x [] l h c = tt
  Covered-insert_right k x (none ∷ rest) l h c = absurd c
  Covered-insert_right k x (some s ∷ rest) l h c = (
    c.0,
    λ e. ground (arith, lookup-insert k s.name x h, e, c.1),
    Covered-insert_right k x rest l h c.2,
  )
