-- ===== src/Proxy/Tests.antt =====
-- A reference to a secret, and a call that failed on a proxy of the router of Router/Tests.
use fi_mcp_kit.Base.{ℕ, ◌≡◌, refl, String, true, none, some, [], ◌∷◌, arith, cat}
use fi_mcp_kit.Base.Dict.{lookup, read}
use fi_mcp_kit.Base.Int.{pos, negsuc}
use fi_mcp_kit.Base.Run.{returns}
use fi_mcp_kit.Base.Text.{equal_fold, fold}
use fi_mcp_kit.PoolState.{Conn, Config, new, pos_or, touch}
use fi_mcp_kit.Registry.Query.{is_local_only}
use fi_mcp_kit.Router.Health.{is_healthy}
use fi_mcp_kit.Router.Types.{RouteDecision, local}
use fi_mcp_kit.Router.Route.{route, route_found, route_either, server_in, first_named}
use fi_mcp_kit.Router.Tests.{started}
use fi_mcp_kit.Proxy.Refs.{resolve_secret_refs}
use fi_mcp_kit.Proxy.RefLaws.{resolve_secret_refs_lem}
use fi_mcp_kit.Proxy.Receive.{Reply, arrived, recv_response, response, nil_id, float_id, has_id}
use fi_mcp_kit.Proxy.Session.{Link, call_request, call_tool, fetched}
use fi_mcp_kit.Proxy.SessionLaws.{call_tool_lem}
use fi_mcp_kit.Proxy.Calls.{Proxy, side_of, begin_call, end_call, local_side}
use fi_mcp_kit.Proxy.CallLaws.{Gets, begin_call-end_call}

resolve_secret_refs_lem_example :
    (resolve_secret_refs (λ n. "env") (λ n. "secret") (cat "${env:" (cat "KEY" "}")) ≡ "env")
    × (resolve_secret_refs (λ n. "env") (λ n. "secret") (cat "${secret:" (cat "KEY" "}"))
        ≡ "secret")
    × (resolve_secret_refs (λ n. "env") (λ n. "secret") (cat "${keychain:" (cat "KEY" "}"))
        ≡ "secret")
resolve_secret_refs_lem_example =
    resolve_secret_refs_lem (λ n. "env") (λ n. "secret") "KEY" refl refl

abbrev done : Reply
done = record { id = float_id (pos 4); error = none; result = "done" }

abbrev notice : Reply
notice = record done { id = nil_id }

skips_notices : recv_response 4 (arrived notice ∷ arrived done ∷ []) ≡ response done []
unfolding recv_response has_id
skips_notices = refl

abbrev small : Config
small = record { max_idle = pos 1; max_open = pos 2; idle_timeout = negsuc 0; wait_timeout = pos 0 }

abbrev proxy : Proxy ℕ
proxy = record { router = started; hub_pool = new small; local_pool = new small }

abbrev web_conn : Conn
web_conn = record {
  server_name = "web";
  transport = 7;
  created_at = 1;
  last_used = 1;
  healthy = true;
}

abbrev to_local : RouteDecision
to_local = record { target = local; server_name = "web"; reason = "local healthy" }

routed : route "web" 9 started ≡ returns to_local
unfolding route route_found route_either server_in first_named is_local_only is_healthy lookup
    equal_fold fold
routed = refl

begin_call-end_call_example :
    Gets
      (touch 9 web_conn)
      (begin_call "web" 9 9 none (end_call (some "broken pipe") local_side web_conn 8 proxy).1)
unfolding new pos_or read lookup side_of
begin_call-end_call_example =
    begin_call-end_call (some "broken pipe") web_conn 8 9 9 none proxy to_local routed refl refl
      (omega arith)

-- A late reply to an earlier call comes before the answer.
abbrev link : Link
link = record {
  last_id = 3;
  sends = none ∷ [];
  incoming = arrived (record done { id = float_id (pos 2) }) ∷ arrived notice ∷ arrived done ∷ [];
  sent = [];
}

call_tool_lem_example : call_tool (λ (s : String). some s) (λ s. s) "search" "{}" link ≡ (
  fetched "done",
  record { last_id = 4; sends = []; incoming = []; sent = call_request 4 "search" "{}" ∷ [] },
)
unfolding has_id
call_tool_lem_example =
    call_tool_lem (λ (s : String). some s) (λ s. s) "search" "{}" link []
      (record done { id = float_id (pos 2) } ∷ notice ∷ []) done [] refl refl (refl, (refl, tt))
      refl
