-- ===== src/Gateway/SafetyLaws.antt =====
-- No tool outside the registry's allowlists is ever called.
use fi_mcp_kit.Base.{
  ◌≡◌, ◌≢◌, refl, sym, ◌∙◌, ap, subst, String, Bool, true, false, ◌||◌, Option, none, some, [],
  str_eq, if_cases,
}
use fi_mcp_kit.Base.Run.{Run, returns, panics}
use fi_mcp_kit.Base.Text.{trim_space}
use fi_mcp_kit.Registry.Types.{Registry, Server}
use fi_mcp_kit.Registry.Spec.{get_server}
use fi_mcp_kit.Registry.SpecLaws.{NoNullEntry, declared}
use fi_mcp_kit.Registry.Query.{is_local_only}
use fi_mcp_kit.Registry.StripLaws.{effective}
use fi_mcp_kit.Gateway.ToolCallLaws.{answer_found, handle-Handles}
use fi_mcp_kit.Gateway.Wire.{Wire}
use fi_mcp_kit.Gateway.ToolCall.{
  Request, CallToolResult, Answer, refuse, no_registry, lacks, profile_or_common, handle,
}

-- The tool of the request is on the allowlist of a server that is in the registry and not local-only.
abbrev pub IsCallable : Request → Registry → Type 0
IsCallable q r =
    (s : Server) × (get_server r (trim_space q.server) ≡ some s)
    × (is_local_only s ≡ false)
    × (declared r (trim_space q.server) (profile_or_common (trim_space q.profile))
          (trim_space q.tool)
        ≡ true)

abbrev answer_in : Run (Answer × Option Registry) → Answer
answer_in (returns (a, reg)) = a
answer_in panics = refuse 404 no_registry []

module _ (decode : String → Option CallToolResult) (normalize : String → String)
    (wires : String → Wire) (as_map : String → Bool) (scheme_of : String → Option String)
    (template : String) where
  -- An answer of a request that wrote to a backend only if its tool is callable.
  abbrev Guarded : Request → Registry → Answer → Type 0
  Guarded q r a = a.sent ≢ [] → IsCallable q r

  answer_found-Guarded :
      (q : Request) (r : Registry) (o : Option Server)
      → get_server r (trim_space q.server) ≡ o
      → Guarded q r (
          answer_found decode normalize wires as_map scheme_of template
            (trim_space q.server)
            (trim_space q.tool)
            q
            r
            o)
  answer_found-Guarded q r none e = λ n. absurd (n refl)
  answer_found-Guarded q r (some s) e =
      if_cases (Guarded q r) (is_local_only s) _ _ (λ l n. absurd (n refl))
        (λ l.
          if_cases (Guarded q r)
            (declared r (trim_space q.server) (profile_or_common (trim_space q.profile))
              (trim_space q.tool))
            _ _ (λ d n. (s, e, l, d))
            (λ d.
              if_cases (Guarded q r)
                (lacks
                  (effective (profile_or_common (trim_space q.profile))
                    (get_server r (trim_space q.server)))
                  (trim_space q.tool))
                _ _ (λ x n. absurd (n refl)) (λ x n. absurd (n refl))))

  -- Where the server has no null entry for the profile and the handler answers, it has written to a
  -- backend only for a tool on the allowlist of a server that is in the registry and not local-only:
  -- the server's own list, or the effective one for the profile.
  pub handle-IsCallable :
      (q : Request) (r : Registry) {a : Answer} {r' : Option Registry}
      → NoNullEntry (profile_or_common (trim_space q.profile)) (get_server r (trim_space q.server))
      → handle decode normalize wires as_map scheme_of template q (some r) ≡ returns (a, r')
      → a.sent ≢ []
      → IsCallable q r
  handle-IsCallable q r {a} {r'} h e =
      let (r1, c, s) = handle-Handles decode normalize wires as_map scheme_of template q r h in
      subst (Guarded q r) (ap answer_in (sym c ∙ e)) (
        if_cases (Guarded q r) (str_eq (trim_space q.server) "" || str_eq (trim_space q.tool) "") _
          _ (λ b n. absurd (n refl))
          (λ b. answer_found-Guarded q r (get_server r (trim_space q.server)) refl))
