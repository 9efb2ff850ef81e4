-- ===== src/Router/Proxy.antt =====
-- The Proxy of pkg/router/router.go: a transport whose outcomes are recorded in the router. What the
-- transport returns is an argument: nothing, or the error.
use fi_mcp_kit.Base.{ℕ, String, Bool, Option, none, some}
use fi_mcp_kit.Router.Types.{Router, Target, record_success, record_failure}

pub record Proxy : Type 0 where
  pub server : String
  pub target : Target

module _ {A : Type 0} (z : A) (is_zero : A → Bool) (blend : A → A → A) where
  -- Send, with the latency measured around it.
  unfoldable pub proxy_send : Proxy → Option String → A → ℕ → Router A → Router A
  proxy_send p none latency now r = record_success z is_zero blend p.server p.target latency now r
  proxy_send p (some e) latency now r = record_failure z is_zero blend p.server p.target e now r

  -- Recv records a failure only.
  unfoldable pub proxy_recv : Proxy → Option String → ℕ → Router A → Router A
  proxy_recv p none now r = r
  proxy_recv p (some e) now r = record_failure z is_zero blend p.server p.target e now r
