-- ===== src/Proxy/Receive.antt =====
-- recvResponse of pkg/proxy/proxy.go. What is received is a list, one entry for each Recv; behind its
-- end a Recv fails, as at the deadline.
use fi_mcp_kit.Base.{ℕ, String, Bool, false, Option, none, some, List, [], ◌∷◌, eqb, if◌then◌else◌}
use fi_mcp_kit.Base.Int.{ℤ, pos, negsuc}

-- The id of a message; a float64 is given by its integer part.
pub data MessageId : Type 0 where
  nil_id : MessageId
  int_id int64_id float_id : ℤ → MessageId
  other_id : MessageId

pub record RpcError : Type 0 where
  pub code : ℤ
  pub message : String

pub record Reply : Type 0 where
  pub id : MessageId
  pub error : Option RpcError
  pub result : String

pub data Received : Type 0 where
  recv_failed : String → Received
  arrived : Reply → Received

-- With what is left to receive.
pub data Response : Type 0 where
  response : Reply → List Received → Response
  recv_error : String → List Received → Response
  rpc_error : RpcError → List Received → Response

abbrev pub is_number : ℤ → ℕ → Bool
is_number (pos n) id = eqb n id
is_number (negsuc n) id = false

unfoldable pub has_id : MessageId → ℕ → Bool
has_id nil_id id = false
has_id (int_id n) id = is_number n id
has_id (int64_id n) id = is_number n id
has_id (float_id n) id = is_number n id
has_id other_id id = false

abbrev pub taken : Reply → Option RpcError → List Received → Response
taken m none rest = response m rest
taken m (some e) rest = rpc_error e rest

unfoldable pub recv_response : ℕ → List Received → Response
unfolding has_id
recv_response id [] = recv_error "deadline exceeded" []
recv_response id (recv_failed e ∷ rest) = recv_error e rest
recv_response id (arrived m ∷ rest) =
    let later = recv_response id rest in if has_id m.id id then taken m m.error rest else later
