-- ===== src/Router/Route.antt =====
-- Route: where a request for a server goes. A missing health entry is a nil pointer, and to read its
-- error message is a panic.
use fi_mcp_kit.Base.{ℕ, String, ◌&&◌, Option, none, some, List, [], ◌∷◌, str_eq, cat, if◌then◌else◌}
use fi_mcp_kit.Base.Dict.{lookup}
use fi_mcp_kit.Base.Run.{Run, returns, panics}
use fi_mcp_kit.Registry.Types.{Registry, Server}
use fi_mcp_kit.Registry.Query.{is_local_only}
use fi_mcp_kit.Router.Health.{Health, is_healthy}
use fi_mcp_kit.Router.Types.{Router, RouteDecision, Target, local, hub, unavailable}

-- The loop over the servers reads s.Name without a nil test.
unfoldable pub first_named : String → List (Option Server) → Run (Option Server)
first_named n [] = returns none
first_named n (none ∷ rest) = panics
first_named n (some s ∷ rest) = if str_eq s.name n then returns (some s) else first_named n rest

unfoldable pub server_in : String → Option Registry → Run (Option Server)
unfolding first_named
server_in n none = returns none
server_in n (some reg) = first_named n reg.servers

abbrev pub decide : String → Target → String → RouteDecision
decide n t why = record { target = t; server_name = n; reason = why }

module _ {A : Type 0} where
  -- h.ErrorMessage, put into a reason.
  abbrev pub with_message : Option (Health A) → (String → RouteDecision) → Run RouteDecision
  with_message none d = panics
  with_message (some h) d = returns (d h.error_message)

  unfoldable pub route_unknown : String → Router A → RouteDecision
  route_unknown n r =
      if r.hub_enabled
      then decide n hub "server not in registry, routing to hub"
      else decide n unavailable "server not in registry"

  unfoldable pub route_local_only : String → ℕ → Router A → Run RouteDecision
  route_local_only n now r =
      if is_healthy r.limits now (lookup n r.local_health)
      then returns (decide n local "local-only server")
      else with_message (lookup n r.local_health)
          (λ m. decide n unavailable (cat "local-only server unhealthy: " m))

  unfoldable pub give_up : String → Router A → Run RouteDecision
  give_up n r = elim (lookup n r.local_health) [
    | none ↦ panics
    | some l ↦
        if r.hub_enabled
        then with_message (lookup n r.hub_health)
            (λ m. decide n unavailable (cat "local: " (cat l.error_message (cat ", hub: " m))))
        else returns (decide n unavailable (cat "local: " l.error_message))
  ]

  unfoldable pub route_either : String → ℕ → Router A → Run RouteDecision
  unfolding give_up
  route_either n now r =
      if is_healthy r.limits now (lookup n r.local_health)
      then returns (decide n local "local healthy")
      else if r.hub_enabled && is_healthy r.limits now (lookup n r.hub_health)
      then with_message (lookup n r.local_health)
          (λ m. decide n hub (cat "local unhealthy (" (cat m ") or missing, hub fallback")))
      else give_up n r

  unfoldable pub route_found : String → ℕ → Router A → Run (Option Server) → Run RouteDecision
  unfolding route_unknown route_local_only route_either
  route_found n now r panics = panics
  route_found n now r (returns none) = returns (route_unknown n r)
  route_found n now r (returns (some s)) =
      if is_local_only s then route_local_only n now r else route_either n now r

  unfoldable pub route : String → ℕ → Router A → Run RouteDecision
  unfolding route_found
  route n now r = route_found n now r (server_in n r.registry)
