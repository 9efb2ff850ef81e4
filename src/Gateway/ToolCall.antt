-- ===== src/Gateway/ToolCall.antt =====
-- ToolCallHandler of pkg/gateway/toolcall.go with readToolCallArguments, toolErrorText and specHasTool.
use fi_mcp_kit.Base.{
  ℕ, String, Bool, false, not, ◌&&◌, ◌||◌, Option, none, some, List, [], ◌∷◌, str_eq, cat, any_of,
  ltb, if◌then◌else◌,
}
use fi_mcp_kit.Base.Run.{Run, returns, panics, Eff, ◌>>=◌, pure}
use fi_mcp_kit.Base.Text.{trim_space}
use fi_mcp_kit.Registry.Types.{Registry, Server, TargetSpec, ToolSchema}
use fi_mcp_kit.Registry.Spec.{get_server, get_server_spec, is_tool_always_allowed}
use fi_mcp_kit.Registry.Query.{is_local_only}
use fi_mcp_kit.Gateway.Backend.{Backend, UrlError, found, no_backend, backend_url}
use fi_mcp_kit.Gateway.Wire.{CallError, result, failed, Sent, Wire, Exchange, exchange}

-- A body as it is read: nothing for a failed read; its size is in bytes.
pub record Request : Type 0 where
  pub server : String
  pub tool : String
  pub profile : String
  pub body : Option (String × ℕ)

-- mcp.Content, its type and its text, and mcp.CallToolResult.
pub record Content : Type 0 where
  pub kind : String
  pub text : String

pub record CallToolResult : Type 0 where
  pub is_error : Bool
  pub content : List Content

-- The errors that the handler writes, and what it writes on success.
pub data Reason : Type 0 where
  unknown_server_or_tool no_registry : Reason
  unknown_server unknown_tool : String → Reason
  not_allowlisted : String → String → Reason
  unreadable_body oversized_body not_an_object invalid_backend_result : Reason
  no_url : UrlError → Reason
  call_failed : CallError → Reason
  tool_failed : String → Reason

pub record Answer : Type 0 where
  pub status : ℕ
  pub reply : Option String
  pub reason : Option Reason
  pub sent : List Sent

abbrev pub refuse : ℕ → Reason → List Sent → Answer
refuse status reason sent = record {
  status = status;
  reply = none;
  reason = some reason;
  sent = sent;
}

unfoldable pub text_parts : List Content → List String
text_parts [] = []
text_parts (c ∷ rest) =
    if str_eq c.kind "text" && not (str_eq (trim_space c.text) "")
    then trim_space c.text ∷ text_parts rest
    else text_parts rest

-- strings.Join(parts, "; ")
unfoldable pub join_parts : List String → String
join_parts [] = ""
join_parts (s ∷ []) = s
join_parts (s ∷ t ∷ rest) = cat s (cat "; " (join_parts (t ∷ rest)))

abbrev pub or_unspecific : List String → String
or_unspecific [] = "tool reported an error"
or_unspecific (s ∷ rest) = join_parts (s ∷ rest)

unfoldable pub tool_error_text : List Content → String
unfolding text_parts join_parts
tool_error_text content = or_unspecific (text_parts content)

unfoldable pub spec_has_tool : List ToolSchema → String → Bool
spec_has_tool tools n = any_of (λ t. str_eq t.name n) tools

-- The answer where the allowlist does not have the tool.
abbrev pub lacks : Option TargetSpec → String → Bool
lacks none tool = false
lacks (some spec) tool = elim spec.tools [ [] ↦ false | t ∷ ts ↦ not (spec_has_tool (t ∷ ts) tool) ]

unfoldable pub refuse_tool : String → String → Option TargetSpec → Answer
refuse_tool server tool spec =
    if lacks spec tool
    then refuse 404 (unknown_tool tool) []
    else refuse 403 (not_allowlisted server tool) []

abbrev pub keep_registry : Run (Answer × Registry) → Run (Answer × Option Registry)
keep_registry (returns (a, reg)) = returns (a, some reg)
keep_registry panics = panics

-- defaultToolCallProfile
abbrev pub profile_or_common : String → String
profile_or_common profile = if str_eq profile "" then "common" else profile

-- The arguments that a body stands for, or the reason against it. `as_map` tells whether
-- json.Unmarshal reads a text into a map[string]any.
pub data Arguments : Type 0 where
  arguments : String → Arguments
  bad_body : Reason → Arguments

module _ (as_map : String → Bool) where
  unfoldable pub read_arguments : Option (String × ℕ) → Arguments
  read_arguments none = bad_body unreadable_body
  read_arguments (some (body, size)) =
      if ltb 1_048_576 size
      then bad_body oversized_body
      else if str_eq (trim_space body) ""
      then arguments "{}"
      else if as_map (trim_space body)
      then arguments (trim_space body)
      else bad_body not_an_object

-- `decode` stands for the decoding of a CallToolResult, `normalize` for normalizeToolResultText.
module _ (decode : String → Option CallToolResult) (normalize : String → String) where
  unfoldable pub answer_decoded : String → List Sent → Option CallToolResult → Answer
  answer_decoded raw sent none = refuse 502 invalid_backend_result sent
  answer_decoded raw sent (some r) =
      if r.is_error
      then refuse 502 (tool_failed (tool_error_text r.content)) sent
      else record { status = 200; reply = some (normalize raw); reason = none; sent = sent }

  unfoldable pub answer_exchange : Exchange → Answer
  unfolding answer_decoded
  answer_exchange (failed e, sent) = refuse 502 (call_failed e) sent
  answer_exchange (result raw, sent) = answer_decoded raw sent (decode raw)

  -- `wires` is the connection that a dial of a URL makes.
  module _ (wires : String → Wire) where
    unfoldable pub call_backend : String → String → Backend → Answer
    unfolding answer_exchange
    call_backend tool args (no_backend e) = refuse 502 (no_url e) []
    call_backend tool args (found url) = answer_exchange (exchange tool args (wires url))

    module _ (as_map : String → Bool) (scheme_of : String → Option String) (template : String) where
      unfoldable pub invoke_with : String → String → Registry → Arguments → Answer
      unfolding call_backend
      invoke_with server tool reg (bad_body reason) = refuse 400 reason []
      invoke_with server tool reg (arguments args) =
          call_backend tool args (backend_url scheme_of template (some reg) server)

      unfoldable pub serve : String → String → String → Option (String × ℕ) → Eff Registry Answer
      unfolding invoke_with refuse_tool
      serve server profile tool body = is_tool_always_allowed server profile tool >>= λ allowed.
          if allowed
          then (λ reg. returns (invoke_with server tool reg (read_arguments as_map body), reg))
          else (do spec ← get_server_spec server profile; pure (refuse_tool server tool spec))

      unfoldable pub serve_found : String → String → Request → Option Server → Eff Registry Answer
      unfolding serve
      serve_found server tool q none = pure (refuse 404 (unknown_server server) [])
      serve_found server tool q (some s) =
          if is_local_only s
          then pure (refuse 404 (unknown_server server) [])
          else serve server (profile_or_common (trim_space q.profile)) tool q.body

      unfoldable pub handle_named : String → String → Request → Registry → Run (Answer × Registry)
      unfolding serve_found
      handle_named server tool q reg = serve_found server tool q (get_server reg server) reg

      unfoldable pub handle_in :
          String → String → Request → Option Registry → Run (Answer × Option Registry)
      unfolding handle_named
      handle_in server tool q none = returns (refuse 404 no_registry [], none)
      handle_in server tool q (some reg) = keep_registry (handle_named server tool q reg)

      unfoldable pub handle : Request → Option Registry → Run (Answer × Option Registry)
      unfolding handle_in
      handle q reg =
          if str_eq (trim_space q.server) "" || str_eq (trim_space q.tool) ""
          then returns (refuse 404 unknown_server_or_tool [], reg)
          else handle_in (trim_space q.server) (trim_space q.tool) q reg
