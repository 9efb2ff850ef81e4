-- ===== src/Gateway/WireLaws.antt =====
-- What CallTool writes and which response it takes.
use fi_mcp_kit.Base.{
  ℕ, ◌≡◌, inl, inr, refl, String, true, false, List, [], ◌∷◌, ◌++◌, arith, All, if_cases,
  Option-cases,
}
use fi_mcp_kit.Gateway.Wire.{
  Message, Incoming, message, Sent, initialize, initialized, tools_call, CallResult, result, failed,
  Wire, Response, response, no_response, answers, read_response, finish_call, Exchange,
  request_tool, after_initialize, exchange,
}

-- A message that is not the response awaited.
abbrev pub Other : ℕ → Incoming → Type 0
Other want (message m) = answers want m ≡ false
Other want _ = ⊥

-- The first response to a request among messages that are none is the one taken, however many there
-- are, and what follows it is left to be read.
pub read_response-first :
    (want : ℕ) (others rest : List Incoming) (m : Message)
    → All (Other want) others
    → answers want m ≡ true
    → read_response want (others ++ (message m ∷ rest)) ≡ response m rest
unfolding read_response
read_response-first want [] rest m h e = ground (arith, e)
read_response-first want (message o ∷ others) rest m h e =
    ground (arith, h.0, read_response-first want others rest m h.1 e)
read_response-first want (Incoming.cancelled ∷ others) rest m h e = absurd h.0
read_response-first want (Incoming.broken ∷ others) rest m h e = absurd h.0
read_response-first want (Incoming.garbled ∷ others) rest m h e = absurd h.0

-- What the client writes is a part of the protocol's sequence from its start; a result comes only of
-- all of it.
abbrev pub Protocol : String → String → CallResult → List Sent → Type 0
Protocol tool args (result r) sent = sent ≡ initialize ∷ initialized ∷ tools_call tool args ∷ []
Protocol tool args (failed e) sent =
    (rest : List Sent) × (sent ++ rest ≡ initialize ∷ initialized ∷ tools_call tool args ∷ [])

abbrev pub Follows : String → String → Exchange → Type 0
Follows tool args (r, sent) = Protocol tool args r sent

complete :
    (tool args : String) (r : CallResult)
    → Follows tool args (r, initialize ∷ initialized ∷ tools_call tool args ∷ [])
complete tool args (result r) = refl
complete tool args (failed e) = ([], refl)

request_tool-Follows :
    (tool args : String) (w : Wire) (rest : List Incoming)
    → Follows tool args (request_tool tool args w rest (initialize ∷ initialized ∷ []))
unfolding request_tool
request_tool-Follows tool args w rest =
    if_cases (Follows tool args) (w.builds 2) _ _
      (λ b.
        if_cases (Follows tool args) (w.writes 2) _ _
          (λ e. complete tool args (finish_call (read_response 2 rest)))
          (λ e. (tools_call tool args ∷ [], refl)))
      (λ b. (tools_call tool args ∷ [], refl))

after_initialize-Follows :
    (tool args : String) (w : Wire) (r : Response)
    → Follows tool args (after_initialize tool args w r)
unfolding after_initialize
after_initialize-Follows tool args w (no_response e) =
    (initialized ∷ tools_call tool args ∷ [], refl)
after_initialize-Follows tool args w (response m rest) = elim (Option-cases m.error) [
  | inl none' ↦ simp none' (
      if_cases (Follows tool args) (w.writes 1) _ _ (λ e. request_tool-Follows tool args w rest)
        (λ e. (initialized ∷ tools_call tool args ∷ [], refl)))
  | inr (e, some') ↦ simp some' (initialized ∷ tools_call tool args ∷ [], refl)
]

-- Whatever the backend sends and wherever the connection fails, CallTool writes a beginning of the
-- sequence initialize, initialized, tools/call with the tool and the arguments given, and all of it
-- where it returns a result.
pub exchange-Follows : (tool args : String) (w : Wire) → Follows tool args (exchange tool args w)
unfolding exchange
exchange-Follows tool args w =
    if_cases (Follows tool args) w.dials _ _
      (λ d.
        if_cases (Follows tool args) (w.builds 1) _ _
          (λ b.
            if_cases (Follows tool args) (w.writes 0) _ _
              (λ e. after_initialize-Follows tool args w (read_response 1 w.incoming))
              (λ e. (_, refl)))
          (λ b. (_, refl)))
      (λ d. (_, refl))
