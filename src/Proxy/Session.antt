-- ===== src/Proxy/Session.antt =====
-- The requests of a backend in pkg/proxy/proxy.go: initialize, listTools and callTool on a connection
-- whose Sends have given outcomes and whose Recvs are a list. The counter of request ids is the proxy's.
use fi_mcp_kit.Base.{ℕ, ◌+◌, String, Option, none, some, List, [], ◌∷◌, ◌++◌, cat}
use fi_mcp_kit.Base.Dict.{Dict}
use fi_mcp_kit.Validator.Formats.{int_text}
use fi_mcp_kit.Generator.Tokens.{Env, resolve_tokens}
use fi_mcp_kit.Proxy.Refs.{resolve_secret_refs}
use fi_mcp_kit.Proxy.Receive.{
  Reply, RpcError, Received, Response, response, recv_error, rpc_error, recv_response,
}

-- buildEnv: `environ` is os.Environ; the entries of the map may come in any order.
module _ (env : Env) (getenv get_value : String → String) (repo : String) where
  abbrev pub env_pairs : Dict String → List String
  env_pairs [] = []
  env_pairs ((k, v) ∷ d) =
      cat k (cat "=" (resolve_secret_refs getenv get_value (resolve_tokens env v repo "local")))
      ∷ env_pairs d

  unfoldable pub build_env : List String → Dict String → List String
  unfolding resolve_secret_refs resolve_tokens
  build_env environ d = environ ++ env_pairs d

-- The arguments of a call are kept as their text.
pub data Outgoing : Type 0 where
  initialize_request : ℕ → Outgoing
  initialized_notice : Outgoing
  list_request : ℕ → Outgoing
  call_request : ℕ → String → String → Outgoing

pub record Link : Type 0 where
  pub last_id : ℕ
  -- The outcomes of the Sends to come, an error or none; behind their end a Send fails.
  pub sends : List (Option String)
  pub incoming : List Received
  -- What was sent, the newest first.
  pub sent : List Outgoing

pub data Fetched (A : Type 0) : Type 0 where
  fetched : A → Fetched A
  failed : String → Fetched A

abbrev pub sent_with : Outgoing → Link → List (Option String) → Option String × Link
sent_with r l [] = (some "closed", l)
sent_with r l (some e ∷ sends) = (some e, record l { sends = sends })
sent_with r l (none ∷ sends) = (none, record l { sends = sends; sent = r ∷ l.sent })

-- transport.Send
unfoldable pub send : Outgoing → Link → Option String × Link
send r l = sent_with r l l.sends

abbrev pub rpc_text : RpcError → String
rpc_text e = cat "rpc error (" (cat (int_text e.code) (cat "): " e.message))

abbrev pub received : Link → Response → Fetched Reply × Link
received l (response m rest) = (fetched m, record l { incoming = rest })
received l (recv_error e rest) = (failed e, record l { incoming = rest })
received l (rpc_error e rest) = (failed (rpc_text e), record l { incoming = rest })

abbrev pub answered : ℕ → Option String × Link → Fetched Reply × Link
answered id (some e, l) = (failed e, l)
answered id (none, l) = received l (recv_response id l.incoming)

-- nextID, Send and recvResponse.
unfoldable pub request : (ℕ → Outgoing) → Link → Fetched Reply × Link
unfolding send recv_response
request make l = let id = l.last_id + 1 in answered id (send (make id) (record l { last_id = id }))

abbrev pub then_notice : Fetched Reply × Link → Option String × Link
then_notice (failed e, l) = (some e, l)
then_notice (fetched m, l) = send initialized_notice l

unfoldable pub initialize : Link → Option String × Link
unfolding request
initialize l = then_notice (request initialize_request l)

-- json.Unmarshal of the result, or its error.
abbrev pub decoded : {A : Type 0} → Option A → Fetched A
decoded none = failed "unmarshal"
decoded (some r) = fetched r

module _ {A : Type 0} (decode : String → Option A) where
  abbrev pub decoded_reply : Fetched Reply × Link → Fetched A × Link
  decoded_reply (failed e, l) = (failed e, l)
  decoded_reply (fetched m, l) = (decoded (decode m.result), l)

  unfoldable pub list_tools : Link → Fetched A × Link
  unfolding request
  list_tools l = decoded_reply (request list_request l)

  -- `error_result` is mcp.ErrorResult.
  module _ (error_result : String → A) where
    abbrev pub or_error_result : Option A → Option RpcError → Fetched A
    or_error_result (some r) error = fetched r
    or_error_result none (some e) = fetched (error_result e.message)
    or_error_result none none = failed "unmarshal"

    abbrev pub called : Fetched Reply × Link → Fetched A × Link
    called (failed e, l) = (failed e, l)
    called (fetched m, l) = (or_error_result (decode m.result) m.error, l)

    unfoldable pub call_tool : String → String → Link → Fetched A × Link
    unfolding request
    call_tool name args l = called (request (λ id. call_request id name args) l)
