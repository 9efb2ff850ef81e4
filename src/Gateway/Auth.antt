-- ===== src/Gateway/Auth.antt =====
-- The authenticators of pkg/gateway/hub.go and the chain of hooks of pkg/gateway/auth/hooks.go.
use fi_mcp_kit.Base.{
  String, Option, none, some, List, [], ◌∷◌, str_eq, cat, contains, any_of, if◌then◌else◌,
}
use fi_mcp_kit.Base.Text.{has_prefix}

pub data AuthError : Type 0 where
  invalid_or_missing_token no_client_certificates name_not_allowed : AuthError

-- The header, or else the query parameter.
abbrev pub presented : String → String → String
presented header query = if str_eq header "" then query else header

abbrev pub with_scheme : String → String
with_scheme t = if has_prefix t "Bearer " then t else cat "Bearer " t

-- TokenAuthenticator.Authenticate; nothing is success.
unfoldable pub token_authenticate : String → String → String → Option AuthError
token_authenticate token header query =
    if str_eq (with_scheme (presented header query)) (cat "Bearer " token)
    then none
    else some invalid_or_missing_token

-- CertAuthenticator.Authenticate, on the common names of the peer's certificates.
unfoldable pub cert_authenticate : List String → Option (List String) → Option AuthError
cert_authenticate allowed none = some no_client_certificates
cert_authenticate allowed (some []) = some no_client_certificates
cert_authenticate [] (some (c ∷ certs)) = none
cert_authenticate (a ∷ allowed) (some (c ∷ certs)) =
    if any_of (contains (a ∷ allowed)) (c ∷ certs) then none else some name_not_allowed

-- What OnConnect returns: a context, which may be nil, or an error.
pub data Connect (C E : Type 0) : Type 0 where
  accepts : Option C → Connect C E
  rejects : E → Connect C E

abbrev pub newer : {C : Type 0} → Option C → Option C → Option C
newer old none = old
newer old (some c) = some c

module _ {C E Q : Type 0} where
  -- The loop of Chain.OnConnect, with lastAuth.
  unfoldable pub connect_from : Option C → List (Q → Connect C E) → Q → Connect C E
  connect_from last [] q = accepts last
  connect_from last (hook ∷ hooks) q =
      let next : Option C → Connect C E = λ found. connect_from (newer last found) hooks q in
      elim (hook q) [ accepts found ↦ next found | rejects e ↦ rejects e ]

  unfoldable pub chain_connect : List (Q → Connect C E) → Q → Connect C E
  unfolding connect_from
  chain_connect hooks q = connect_from none hooks q

-- Chain.OnMessage; nothing is success.
unfoldable pub chain_message : {C E M : Type 0} → List (C → M → Option E) → C → M → Option E
chain_message [] c m = none
chain_message (hook ∷ hooks) c m =
    let later = chain_message hooks c m in elim (hook c m) [ none ↦ later | some e ↦ some e ]
