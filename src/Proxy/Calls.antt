-- ===== src/Proxy/Calls.antt =====
-- withBackend of pkg/proxy/proxy.go: the section up to the connection, and the deferred Put. The call
-- between them is a function of the connection, and only its result is known here.
use fi_mcp_kit.Base.{ℕ, String, Option}
use fi_mcp_kit.Base.Run.{Run, returns, panics}
use fi_mcp_kit.PoolState.{Pool, Conn, Outcome}
use fi_mcp_kit.Pool.{get, put}
use fi_mcp_kit.Router.Types.{Router, RouteDecision, Target, local, hub, unavailable}
use fi_mcp_kit.Router.Route.{route}

pub record Proxy (A : Type 0) : Type 0 where
  pub router : Router A
  pub hub_pool : Pool
  pub local_pool : Pool

-- The pool that pRef points to.
pub data Side : Type 0 where
  hub_side local_side : Side

-- `if decision.Target == router.TargetHub`, and everything else.
unfoldable pub side_of : Target → Side
side_of hub = hub_side
side_of local = local_side
side_of unavailable = local_side

-- What Get answered, with the proxy behind it.
pub record Asked (A : Type 0) : Type 0 where
  pub side : Side
  pub outcome : Outcome
  pub proxy : Proxy A

module _ {A : Type 0} where
  abbrev pub pool_on : Side → Proxy A → Pool
  pool_on hub_side p = p.hub_pool
  pool_on local_side p = p.local_pool

  abbrev pub with_pool : Side → Pool → Proxy A → Proxy A
  with_pool hub_side q p = record p { hub_pool = q }
  with_pool local_side q p = record p { local_pool = q }

  abbrev pub ask : Side → Pool × Outcome → Proxy A → Asked A
  ask side (q, o) p = record { side = side; outcome = o; proxy = with_pool side q p }

  unfoldable pub begin_on :
      String → ℕ → ℕ → Option String → Proxy A → Run RouteDecision → Run (Asked A)
  begin_on n now later ctx p panics = panics
  begin_on n now later ctx p (returns d) =
      let side = side_of d.target in returns (ask side (get n now later ctx (pool_on side p)) p)

  unfoldable pub begin_call : String → ℕ → ℕ → Option String → Proxy A → Run (Asked A)
  unfolding begin_on
  begin_call n now later ctx p = begin_on n now later ctx p (route n now p.router)

  -- `return fn(b)` behind `defer pRef.Put(conn)`: the result is passed on, and the connection put back
  -- as it is; nothing is success.
  unfoldable pub end_call : Option String → Side → Conn → ℕ → Proxy A → Option String × Proxy A
  end_call result side c now p = (result, with_pool side (put c now (pool_on side p)) p)
