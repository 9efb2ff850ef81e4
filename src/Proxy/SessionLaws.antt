-- ===== src/Proxy/SessionLaws.antt =====
-- What callTool of pkg/proxy/proxy.go answers.
use fi_mcp_kit.Base.{
  ℕ, ◌+◌, ◌≡◌, refl, ◌∙◌, ap, String, true, false, Option, none, some, List, [], ◌∷◌, ◌++◌, All,
  map,
}
use fi_mcp_kit.Proxy.Receive.{Reply, RpcError, Received, arrived, taken, has_id, recv_response}
use fi_mcp_kit.Proxy.Session.{
  call_request, Link, Fetched, failed, send, rpc_text, received, answered, request, decoded, called,
  call_tool, or_error_result, sent_with,
}

recv_response-first :
    (id : ℕ) (others : List Reply) (m : Reply) (rest : List Received)
    → All (λ o. has_id o.id id ≡ false) others
    → has_id m.id id ≡ true
    → recv_response id (map arrived others ++ arrived m ∷ rest) ≡ taken m m.error rest
unfolding recv_response
recv_response-first id [] m rest a h = rw h refl
recv_response-first id (o ∷ others) m rest a h = rw a.0 (recv_response-first id others m rest a.1 h)

module _ {A : Type 0} (decode : String → Option A) (error_result : String → A) where
  -- What a reply means to the caller: an error that it carries, or its decoded result.
  abbrev pub meaning : Reply → Option RpcError → Fetched A
  meaning m (some e) = failed (rpc_text e)
  meaning m none = decoded (decode m.result)

  called_reply :
      (l : Link) (m : Reply) (e : Option RpcError) (rest : List Received)
      → m.error ≡ e
      → called decode error_result (received l (taken m e rest))
        ≡ (meaning m e, record l { incoming = rest })
  called_reply l m (some e) rest h = refl
  called_reply l m none rest h =
      ap (λ (r : Fetched A). (r, record l { incoming = rest })) (with_result (decode m.result))
    where
      with_result : (r : Option A) → or_error_result decode error_result r m.error ≡ decoded r
      with_result none = rw h refl
      with_result (some r) = refl

  -- If its request is sent, callTool takes the first message with the id of the request, whatever
  -- messages with other ids come before it: it answers the decoded result, and an error if the message
  -- carries one or cannot be decoded, so never the result that ErrorResult makes.
  pub call_tool_lem :
      (name args : String) (l : Link) (sends : List (Option String)) (others : List Reply)
      (m : Reply) (rest : List Received)
      → l.sends ≡ none ∷ sends
      → l.incoming ≡ map arrived others ++ arrived m ∷ rest
      → All (λ o. has_id o.id (l.last_id + 1) ≡ false) others
      → has_id m.id (l.last_id + 1) ≡ true
      → call_tool decode error_result name args l ≡ (
        meaning m m.error,
        record {
          last_id = l.last_id + 1;
          sends = sends;
          incoming = rest;
          sent = call_request (l.last_id + 1) name args ∷ l.sent;
        },
      )
  unfolding call_tool request send
  call_tool_lem name args l sends others m rest s i a h =
      let id = l.last_id + 1 in
      let behind = record l {
        last_id = id;
        sends = sends;
        sent = call_request id name args ∷ l.sent;
      } in
      ap
        (λ o.
          called decode error_result
            (answered id (sent_with (call_request id name args) (record l { last_id = id }) o)))
        s
      ∙ ap (λ r. called decode error_result (received behind r))
          (ap (recv_response id) i ∙ recv_response-first id others m rest a h)
      ∙ called_reply behind m m.error rest refl
