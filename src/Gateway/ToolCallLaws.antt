-- ===== src/Gateway/ToolCallLaws.antt =====
-- ToolCallHandler against its contract: which status it answers, and which tools it ever calls.
use fi_mcp_kit.Base.{
  ℕ, ◌≡◌, refl, inl, inr, ◌∙◌, ap, String, Bool, true, false, ◌||◌, Option, none, some, [], arith,
  leb, str_eq, if◌then◌else◌, Bool-cases,
}
use fi_mcp_kit.Base.Run.{Run, returns, Eff, ◌>>=◌}
use fi_mcp_kit.Base.Text.{trim_space}
use fi_mcp_kit.Registry.Types.{Registry, Server}
use fi_mcp_kit.Registry.Spec.{get_server, is_tool_always_allowed}
use fi_mcp_kit.Registry.SpecLaws.{strip, NoNullEntry, declared, is_tool_always_allowed_lem}
use fi_mcp_kit.Registry.StripLaws.{
  same-NoNullEntry, effective, Returns, Answers-Returns, get_server_spec-Returns,
}
use fi_mcp_kit.Registry.Query.{is_local_only}
use fi_mcp_kit.Gateway.SameLaws.{same_url, same_lacks}
use fi_mcp_kit.Gateway.Backend.{backend_url, url_for}
use fi_mcp_kit.Gateway.Wire.{Wire}
use fi_mcp_kit.Gateway.ToolCall.{
  lacks, Request, CallToolResult, Answer, refuse, unknown_server_or_tool, unknown_server,
  unknown_tool, not_allowlisted, refuse_tool, Arguments, arguments, bad_body, call_backend,
  unreadable_body, oversized_body, not_an_object, read_arguments, invoke_with, serve,
  profile_or_common, serve_found, handle_named, keep_registry, handle_in, handle,
}

-- A handler that answers so, and changes the registry in Env maps only.
abbrev pub Handles : Answer → Registry → Run (Answer × Option Registry) → Type 0
Handles a r x = (r' : Registry) × (x ≡ returns (a, some r')) × (strip r' ≡ strip r)

Returns-if :
    (b : Bool) (x y : Answer) (m k : Eff Registry Answer) (r0 r : Registry)
    → Returns x r0 (m r)
    → Returns y r0 (k r)
    → Returns (if b then x else y) r0 ((if b then m else k) r)
Returns-if true x y m k r0 r h g = h
Returns-if false x y m k r0 r h g = g

module _ (decode : String → Option CallToolResult) (normalize : String → String)
    (wires : String → Wire) (as_map : String → Bool) (scheme_of : String → Option String)
    (template : String) where
  -- What a body gives: the text of the arguments of a call, or a reason to refuse it. A blank body
  -- stands for no arguments; `as_map` is whether a text decodes as a map, as null also does.
  abbrev pub body_arguments : Option (String × ℕ) → Arguments
  body_arguments none = bad_body unreadable_body
  body_arguments (some (body, size)) =
      if leb size 1_048_576
      then (if str_eq (trim_space body) ""
          then arguments "{}"
          else if as_map (trim_space body)
          then arguments (trim_space body)
          else bad_body not_an_object)
      else bad_body oversized_body

  same_arguments : (body : Option (String × ℕ)) → read_arguments as_map body ≡ body_arguments body
  unfolding read_arguments
  same_arguments none = refl
  same_arguments (some (body, size)) = ground arith

  -- A callable tool: a bad body is refused, and with arguments the backend is asked.
  abbrev pub served_body : Registry → String → String → Arguments → Answer
  served_body reg server tool (bad_body reason) = refuse 400 reason []
  served_body reg server tool (arguments args) =
      call_backend decode normalize wires tool args
        (backend_url scheme_of template (some reg) server)

  -- The contract, read off the registry: no action.
  abbrev pub served : Registry → String → String → String → Option (String × ℕ) → Answer
  served reg server profile tool body =
      if declared reg server profile tool
      then served_body reg server tool (body_arguments body)
      else if lacks (effective profile (get_server reg server)) tool
      then refuse 404 (unknown_tool tool) []
      else refuse 403 (not_allowlisted server tool) []

  abbrev pub answer_found : String → String → Request → Registry → Option Server → Answer
  answer_found server tool q reg none = refuse 404 (unknown_server server) []
  answer_found server tool q reg (some s) =
      if is_local_only s
      then refuse 404 (unknown_server server) []
      else served reg server (profile_or_common (trim_space q.profile)) tool q.body

  same_invoke :
      (server tool : String) (r r' : Registry) (a : Arguments)
      → strip r' ≡ strip r
      → invoke_with decode normalize wires as_map scheme_of template server tool r' a
        ≡ served_body r server tool a
  unfolding invoke_with backend_url
  same_invoke server tool r r' (bad_body reason) e = refl
  same_invoke server tool r r' (arguments args) e =
      ap
        (λ u.
          call_backend decode normalize wires tool args
            (url_for scheme_of u (trim_space template) server))
        (same_url server r r' e)

  same_refusal :
      (server profile tool : String) (r r' : Registry)
      → strip r' ≡ strip r
      → refuse_tool server tool (effective profile (get_server r' server)) ≡ (
          if lacks (effective profile (get_server r server)) tool
          then refuse 404 (unknown_tool tool) []
          else refuse 403 (not_allowlisted server tool) [])
  unfolding refuse_tool
  same_refusal server profile tool r r' e =
      ap
        (λ (b : Bool).
          if b
          then refuse 404 (unknown_tool tool) []
          else refuse 403 (not_allowlisted server tool) [])
        (same_lacks server profile tool r r' e)

  serve-Returns :
      (server profile tool : String) (body : Option (String × ℕ)) (r : Registry)
      → NoNullEntry profile (get_server r server)
      → Returns
          (served r server profile tool body)
          r
          (serve decode normalize wires as_map scheme_of template server profile tool body r)
  unfolding serve
  serve-Returns server profile tool body r h =
      let (r1, e1, s1) =
        Answers-Returns (declared r server profile tool) r
          (is_tool_always_allowed server profile tool r)
          (is_tool_always_allowed_lem server profile tool r h) in
      let (r2, e2, s2) =
        get_server_spec-Returns server profile r1 (same-NoNullEntry profile server r r1 s1 h) in
      rw (e1, ◌>>=◌)
        (Returns-if (declared r server profile tool) _ _ _ _ r r1
          (
            r1,
            ap (λ a. returns (a, r1))
                (same_invoke server tool r r1 (read_arguments as_map body) s1
                  ∙ ap (served_body r server tool) (same_arguments body)),
            s1,
          )
          (rw (e2, ◌>>=◌)
            (r2, ap (λ a. returns (a, r2)) (same_refusal server profile tool r r1 s1), s2 ∙ s1)))

  serve_found-Returns :
      (server tool : String) (q : Request) (r : Registry) (o : Option Server)
      → NoNullEntry (profile_or_common (trim_space q.profile)) (get_server r server)
      → Returns
          (answer_found server tool q r o)
          r
          (serve_found decode normalize wires as_map scheme_of template server tool q o r)
  unfolding serve_found
  serve_found-Returns server tool q r none h = (r, refl, refl)
  serve_found-Returns server tool q r (some s) h =
      Returns-if (is_local_only s) _ _ _ _ r r (r, refl, refl)
        (serve-Returns server (profile_or_common (trim_space q.profile)) tool q.body r h)

  -- The contract of a request, for a registry that is loaded.
  abbrev pub contract : Request → Registry → Answer
  contract q r =
      if str_eq (trim_space q.server) "" || str_eq (trim_space q.tool) ""
      then refuse 404 unknown_server_or_tool []
      else answer_found (trim_space q.server) (trim_space q.tool) q r
          (get_server r (trim_space q.server))

  kept :
      (a : Answer) (r : Registry) (x : Run (Answer × Registry))
      → Returns a r x
      → Handles a r (keep_registry x)
  kept a r x h = (h.0, ap (keep_registry) h.1, h.2)

  -- On a registry whose server has no null entry for the profile, ToolCallHandler answers so:
  -- 404 for a missing name, an unknown or a local-only server, and a tool that the server's schemas
  -- lack; 403 for one that is not on its allowlist; 400 for a body that cannot be read, that has more
  -- than 1 MiB, or that is neither blank nor decodes as a map, where null decodes as one; otherwise
  -- what the exchange with the backend makes. It does not panic, and changes the registry in Env maps only.
  pub handle-Handles :
      (q : Request) (r : Registry)
      → NoNullEntry (profile_or_common (trim_space q.profile)) (get_server r (trim_space q.server))
      → Handles
          (contract q r)
          r
          (handle decode normalize wires as_map scheme_of template q (some r))
  unfolding handle handle_in handle_named
  handle-Handles q r h =
      elim (Bool-cases (str_eq (trim_space q.server) "" || str_eq (trim_space q.tool) "")) [
        | inl e ↦ simp e (r, refl, refl)
        | inr e ↦ simp e (
            kept _ r _ (
              serve_found-Returns (trim_space q.server) (trim_space q.tool) q r
                (get_server r (trim_space q.server)) h))
      ]
