-- ===== src/Proxy/CallLaws.antt =====
-- The next call behind a call that failed.
use fi_mcp_kit.Base.{ℕ, ◌≡◌, ◌<◌, refl, String, true, false, Option, length}
use fi_mcp_kit.Base.Run.{Run, returns, panics}
use fi_mcp_kit.PoolState.{Pool, Conn, got, idle, touch}
use fi_mcp_kit.Pool.{put}
use fi_mcp_kit.Pool.Behaviour.{get-put}
use fi_mcp_kit.Router.Types.{RouteDecision}
use fi_mcp_kit.Router.Route.{route}
use fi_mcp_kit.Proxy.Calls.{
  Proxy, Side, hub_side, local_side, side_of, Asked, pool_on, with_pool, begin_on, begin_call,
  end_call,
}

-- Asking led to a connection from the pool.
abbrev pub Gets : {A : Type 0} → Conn → Run (Asked A) → Type 0
Gets c (returns a) = a.outcome ≡ got c
Gets c panics = ⊥

module _ {A : Type 0} where
  pool_on-with_pool : (side : Side) (q : Pool) (p : Proxy A) → pool_on side (with_pool side q p) ≡ q
  pool_on-with_pool hub_side q p = refl
  pool_on-with_pool local_side q p = refl

  router-with_pool : (side : Side) (q : Pool) (p : Proxy A) → (with_pool side q p).router ≡ p.router
  router-with_pool hub_side q p = refl
  router-with_pool local_side q p = refl

  -- Whatever the result of a call, an error included, its connection is what the next call to the
  -- server gets, if the router sends it to the same pool, the pool is open and has room, and the
  -- connection was marked healthy when it was lent.
  pub begin_call-end_call :
      (result : Option String) (c : Conn) (t now later : ℕ) (ctx : Option String) (p : Proxy A)
      (d : RouteDecision)
      → route c.server_name now p.router ≡ returns d
      → (pool_on (side_of d.target) p).closed ≡ false
      → c.healthy ≡ true
      → length (idle (pool_on (side_of d.target) p) c.server_name)
        < (pool_on (side_of d.target) p).max_idle
      → Gets
          (touch now c)
          (begin_call c.server_name now later ctx (end_call result (side_of d.target) c t p).1)
  unfolding begin_call begin_on end_call
  begin_call-end_call result c t now later ctx p d e o h room =
      let side = side_of d.target in
      let q = put c t (pool_on side p) in
      rw (router-with_pool side q p, e, pool_on-with_pool side q p)
        (get-put c t now later ctx (pool_on side p) o h room).0
