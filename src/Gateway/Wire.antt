-- ===== src/Gateway/Wire.antt =====
-- CallTool of pkg/gateway/toolcall.go with the handshake and the reading of responses. The connection
-- is what the websocket library makes of it: whether the dial and each write work, and what is read,
-- one entry for each read. A read past the last entry is an error, as on a closed connection.
use fi_mcp_kit.Base.Decimal.{itoa}
use fi_mcp_kit.Base.{
  ℕ, String, Bool, false, ◌&&◌, Option, none, some, List, [], ◌∷◌, ◌++◌, str_eq, eqb, if◌then◌else◌,
}
use fi_mcp_kit.Base.Int.{ℤ, pos, negsuc}

-- A decoded JSON-RPC id. A float64 is given by its integer part, a json.Number by its int64 value,
-- where it has one.
pub data RpcId : Type 0 where
  float_id : ℤ → RpcId
  int_id : ℤ → RpcId
  int64_id : ℤ → RpcId
  number_id : Option ℤ → RpcId
  text_id : String → RpcId
  other_id : RpcId

pub record Message : Type 0 where
  pub is_response : Bool
  pub id : RpcId
  pub error : Option String
  pub result : String

-- What a read meets: the call's context is cancelled, the connection fails, the bytes are no JSON-RPC
-- message, or they are one.
pub data Incoming : Type 0 where
  cancelled broken garbled : Incoming
  message : Message → Incoming

-- What is written.
pub data Sent : Type 0 where
  initialize initialized : Sent
  tools_call : String → String → Sent

pub data CallError : Type 0 where
  dial_failed build_failed send_failed context_done read_failed bad_message : CallError
  initialize_error backend_error : String → CallError

pub data CallResult : Type 0 where
  result : String → CallResult
  failed : CallError → CallResult

-- `builds` tells whether mcp.NewRequest makes the request of that id, `writes` whether the write of
-- that number, from 0, succeeds.
pub record Wire : Type 0 where
  pub dials : Bool
  pub builds : ℕ → Bool
  pub writes : ℕ → Bool
  pub incoming : List Incoming

unfoldable pub is_int : ℤ → ℕ → Bool
is_int (pos n) want = eqb n want
is_int (negsuc n) want = false

unfoldable pub tool_call_id_matches : RpcId → ℕ → Bool
unfolding is_int itoa
tool_call_id_matches (float_id n) want = is_int n want
tool_call_id_matches (int_id n) want = is_int n want
tool_call_id_matches (int64_id n) want = is_int n want
tool_call_id_matches (number_id none) want = false
tool_call_id_matches (number_id (some n)) want = is_int n want
tool_call_id_matches (text_id s) want = str_eq s (itoa want)
tool_call_id_matches other_id want = false

pub data Response : Type 0 where
  response : Message → List Incoming → Response
  no_response : CallError → Response

abbrev pub answers : ℕ → Message → Bool
answers want m = m.is_response && tool_call_id_matches m.id want

-- readToolCallResponse
unfoldable pub read_response : ℕ → List Incoming → Response
read_response want [] = no_response read_failed
read_response want (cancelled ∷ rest) = no_response context_done
read_response want (broken ∷ rest) = no_response read_failed
read_response want (garbled ∷ rest) = no_response bad_message
read_response want (message m ∷ rest) =
    let later = read_response want rest in if answers want m then response m rest else later

-- The sections of CallTool, from the last to the first, each with what was written before it.
unfoldable pub finish_call : Response → CallResult
finish_call (no_response e) = failed e
finish_call (response m rest) = elim m.error [
  | some e ↦ failed (backend_error e)
  | none ↦ result m.result
]

abbrev pub Exchange : Type 0
Exchange = CallResult × List Sent

module _ (tool arguments : String) (w : Wire) where
  unfoldable pub request_tool : List Incoming → List Sent → Exchange
  unfolding finish_call
  request_tool rest sent =
      if w.builds 2
      then (if w.writes 2
          then (finish_call (read_response 2 rest), sent ++ (tools_call tool arguments ∷ []))
          else (failed send_failed, sent))
      else (failed build_failed, sent)

  unfoldable pub after_initialize : Response → Exchange
  unfolding request_tool
  after_initialize (no_response e) = (failed e, initialize ∷ [])
  after_initialize (response m rest) = elim m.error [
    | some e ↦ (failed (initialize_error e), initialize ∷ [])
    | none ↦
        if w.writes 1
        then request_tool rest (initialize ∷ initialized ∷ [])
        else (failed send_failed, initialize ∷ [])
  ]

  unfoldable pub exchange : Exchange
  unfolding after_initialize
  exchange =
      if w.dials
      then (if w.builds 1
          then (if w.writes 0
              then after_initialize (read_response 1 w.incoming)
              else (failed send_failed, []))
          else (failed build_failed, []))
      else (failed dial_failed, [])
