-- ===== src/Gateway/Tests.antt =====
-- A REST tool call against a backend that answers, and the theorems of the gateway at it.
use fi_mcp_kit.Base.Decimal.{itoa, digits}
use fi_mcp_kit.Base.{
  ◌⊎◌, ◌↔◌, cat, eqb, if◌then◌else◌, length, ◌+◌, ℕ, ◌≡◌, refl, String, true, false, Option, none,
  some, List, [], ◌∷◌, arith,
}
use fi_mcp_kit.Base.Dict.{insert, erase, lookup}
use fi_mcp_kit.Base.Int.{pos}
use fi_mcp_kit.Base.Run.{Run, returns}
use fi_mcp_kit.Base.Text.{has_prefix, trim_space, equal_fold, fold}
use fi_mcp_kit.Registry.Types.{Registry}
use fi_mcp_kit.Registry.Spec.{find_server, get_server, allowed_for, is_tool_always_allowed}
use fi_mcp_kit.Registry.Query.{is_local_only}
use fi_mcp_kit.Registry.Tests.{web, two_servers}
use fi_mcp_kit.Gateway.Auth.{Connect, accepts, rejects, presented, token_authenticate}
use fi_mcp_kit.Gateway.AuthLaws.{token_authenticate_lem}
use fi_mcp_kit.Gateway.Hosts.{
  new_hub, register_host, unregister_host, unregister_found, host_leaves, get_host,
}
use fi_mcp_kit.Gateway.HostLaws.{
  Event, joins, leaves, run, replacements, hosts_connected-run, get_host-host_leaves,
}
use fi_mcp_kit.Gateway.Backend.{
  backend_url, url_for, own_url, validate_backend_url, check_scheme, replace_server,
}
use fi_mcp_kit.Gateway.Wire.{
  text_id, float_id, Message, Incoming, message, initialize, initialized, tools_call, Wire,
  read_response, tool_call_id_matches, is_int, finish_call, request_tool, after_initialize,
  exchange,
}
use fi_mcp_kit.Gateway.ToolCall.{
  Request, CallToolResult, Answer, handle, handle_in, handle_named, serve_found, serve, invoke_with,
  call_backend, answer_exchange, answer_decoded, read_arguments,
}
use fi_mcp_kit.Gateway.WireLaws.{Follows, exchange-Follows}
use fi_mcp_kit.Gateway.ToolCallLaws.{contract, Handles, handle-Handles}
use fi_mcp_kit.Gateway.SafetyLaws.{IsCallable, handle-IsCallable}

abbrev reply : ℕ → Message
reply n = record { is_response = true; id = float_id (pos n); error = none; result = "done" }

abbrev notice : Message
notice = record (reply 7) { is_response = false }

abbrev talk : List Incoming
talk = message (reply 1) ∷ message notice ∷ message (reply 2) ∷ []

abbrev good_wire : Wire
good_wire = record { dials = true; builds = λ n. true; writes = λ n. true; incoming = talk }

exchange-Follows_example : Follows "log" "{}" (exchange "log" "{}" good_wire)
exchange-Follows_example = exchange-Follows "log" "{}" good_wire

abbrev cloud : Registry
cloud = record two_servers { servers = some (record web { always_allow = "log" ∷ [] }) ∷ [] }

abbrev ask : Request
ask = record { server = "web"; tool = " log"; profile = ""; body = some (" ", 1) }

abbrev decode : String → Option CallToolResult
decode s = some (record { is_error = false; content = [] })

abbrev serve_ask : Request → Option Registry → Run (Answer × Option Registry)
serve_ask = handle decode (λ s. s) (λ url. good_wire) (λ s. true) (λ url. some "ws") ""

abbrev success : Answer
success = record {
  status = 200;
  reply = some "done";
  reason = none;
  sent = initialize ∷ initialized ∷ tools_call "log" "{}" ∷ [];
}

succeeds : serve_ask ask (some cloud) ≡ returns (success, some cloud)
unfolding handle handle_in handle_named serve_found serve invoke_with call_backend answer_exchange
    answer_decoded read_arguments exchange after_initialize request_tool finish_call read_response
    tool_call_id_matches is_int is_local_only equal_fold fold trim_space is_tool_always_allowed
    allowed_for get_server find_server backend_url url_for own_url validate_backend_url check_scheme
    replace_server
succeeds = refl

handle-Handles_example :
    Handles
      (contract decode (λ s. s) (λ url. good_wire) (λ s. true) (λ url. some "ws") "" ask cloud)
      cloud
      (serve_ask ask (some cloud))
unfolding get_server find_server lookup trim_space
handle-Handles_example =
    handle-Handles decode (λ s. s) (λ url. good_wire) (λ s. true) (λ url. some "ws") "" ask cloud
      (ground arith)

handle-IsCallable_example : IsCallable ask cloud
unfolding get_server find_server lookup trim_space
handle-IsCallable_example =
    handle-IsCallable decode (λ s. s) (λ url. good_wire) (λ s. true) (λ url. some "ws") "" ask cloud
      (ground arith) succeeds (ground arith)

abbrev two_joins : List Event
two_joins = joins "web" 1 ∷ joins "web" 2 ∷ leaves "web" 1 ∷ leaves "web" 2 ∷ []

-- One replacement, and no host is left.
drift : (run two_joins (new_hub none)).hosts_connected ≡ pos 1
unfolding new_hub register_host host_leaves unregister_host unregister_found insert erase lookup
drift = refl

hosts_connected-run_example :
    (run two_joins (new_hub none)).hosts_connected
    ≡ pos (length (run two_joins (new_hub none)).hosts + replacements two_joins (new_hub none))
hosts_connected-run_example = hosts_connected-run none two_joins

get_host-host_leaves_example :
    (get_host "web" (register_host "web" 2 (register_host "web" 1 (new_hub none))) ≡ some 2)
    × (get_host "web"
          (host_leaves "web" 1 (register_host "web" 2 (register_host "web" 1 (new_hub none))))
        ≡ none)
get_host-host_leaves_example = get_host-host_leaves "web" 1 2 (new_hub none)

token_authenticate_lem_example : (token_authenticate "secret" "" "secret" ≡ none) ↔ (
    (presented "" "secret" ≡ cat "Bearer " "secret")
    ⊎ ((has_prefix (presented "" "secret") "Bearer " ≡ false) × (presented "" "secret" ≡ "secret")))
token_authenticate_lem_example = token_authenticate_lem "secret" "" "secret"

abbrev two_hooks : List (ℕ → Connect String String)
two_hooks =
    (λ n. accepts (some "anonymous")) ∷ (λ n. if eqb n 0 then rejects "no" else accepts none) ∷ []

decimal : itoa 120 ≡ "120"
unfolding itoa digits
decimal = refl

text_ids_match : tool_call_id_matches (text_id "2") 2 ≡ true
unfolding tool_call_id_matches itoa digits
text_ids_match = refl
