-- ===== src/Pool/Behaviour.antt =====
-- What a caller of the pool sees: healthy connections only, the last one put back first, nothing
-- from a closed pool, and no connection kept past its idle time.
use fi_mcp_kit.Base.{
  ℕ, suc, ◌+◌, ◌<◌, ◌≡◌, String, true, false, Option, none, some, List, [], ◌∷◌, arith, eq_refl,
  length, if_cases,
}
use fi_mcp_kit.Base.Dict.{read-insert, insert-insert}
use fi_mcp_kit.Base.Int.{ℤ, pos}
use fi_mcp_kit.PoolState.{Pool, Conn, Outcome, got, idle, touch}
use fi_mcp_kit.Pool.{pop_idle, take_idle, await, get_slot, got_or_slot, get, recheck, wake, put}

abbrev pub IsHealthy : Pool × Outcome → Type 0
IsHealthy (p, got c) = c.healthy ≡ true
IsHealthy (p, _) = Unit

abbrev TookHealthy : Pool × Option Conn → Type 0
TookHealthy (p, some c) = c.healthy ≡ true
TookHealthy (p, none) = Unit

pop_idle-TookHealthy : (s : String) (cs : List Conn) (p : Pool) → TookHealthy (pop_idle s cs p)
unfolding pop_idle
pop_idle-TookHealthy s [] p = tt
pop_idle-TookHealthy s (c ∷ rest) p =
    if_cases TookHealthy c.healthy _ _ (λ e. e) (λ _. pop_idle-TookHealthy s rest _)

take_idle-TookHealthy : (s : String) (cs : List Conn) (p : Pool) → TookHealthy (take_idle s cs p)
unfolding take_idle
take_idle-TookHealthy s [] p = tt
take_idle-TookHealthy s (c ∷ rest) p = pop_idle-TookHealthy s (c ∷ rest) p

await-IsHealthy :
    (s : String) (deadline now : ℕ) (ctx : Option String) (p : Pool)
    → IsHealthy (await s deadline now ctx p)
unfolding await
await-IsHealthy s deadline now ctx p = ground arith

get_slot-IsHealthy :
    (s : String) (now later : ℕ) (ctx : Option String) (w : ℤ) (p : Pool)
    → IsHealthy (get_slot s now later ctx w p)
unfolding get_slot
get_slot-IsHealthy s now later ctx (pos (suc w)) p = ground arith
get_slot-IsHealthy s now later ctx _ p = ground arith

got_or_slot-IsHealthy :
    (s : String) (now later : ℕ) (ctx : Option String) (r : Pool × Option Conn)
    → TookHealthy r
    → IsHealthy (got_or_slot s now later ctx r)
unfolding got_or_slot
got_or_slot-IsHealthy s now later ctx (p, some c) h = h
got_or_slot-IsHealthy s now later ctx (p, none) h =
    get_slot-IsHealthy s now later ctx p.wait_timeout p

recheck-IsHealthy :
    (s : String) (deadline now : ℕ) (ctx : Option String) (cs : List Conn) (p : Pool)
    → IsHealthy (recheck s deadline now ctx cs p)
unfolding recheck
recheck-IsHealthy s deadline now ctx [] p = await-IsHealthy s deadline now ctx p
recheck-IsHealthy s deadline now ctx (c ∷ rest) p =
    if_cases IsHealthy c.healthy _ _ (λ e. e) (λ _. await-IsHealthy s deadline now ctx _)

-- A connection that Get takes from the idle list, at once or behind a wait, is a healthy one.
pub get-IsHealthy :
    (s : String) (deadline now later : ℕ) (ctx : Option String) (p : Pool)
    → IsHealthy (get s now later ctx p) × IsHealthy (wake s deadline now ctx p)
unfolding get wake
get-IsHealthy s deadline now later ctx p = (
  if_cases IsHealthy p.closed _ _ (λ _. tt)
      (λ _. got_or_slot-IsHealthy s now later ctx _ (take_idle-TookHealthy s (idle p s) p)),
  if_cases IsHealthy p.closed _ _ (λ _. tt)
      (λ _. recheck-IsHealthy s deadline now ctx (idle p s) p),
)

-- A healthy connection put back into an open pool with room is what the next Get of its server
-- returns, as a hit, and the idle list is then as before.
pub get-put :
    (c : Conn) (t now later : ℕ) (ctx : Option String) (p : Pool)
    → p.closed ≡ false
    → c.healthy ≡ true
    → length (idle p c.server_name) < p.max_idle
    → let r = get c.server_name now later ctx (put c t p) in
      (r.1 ≡ got (touch now c))
      × (idle r.0 c.server_name ≡ idle p c.server_name)
      × (r.0.stats.hits ≡ p.stats.hits + 1)
unfolding get put take_idle pop_idle got_or_slot
get-put c t now later ctx p o h room = ground (
  arith,
  read-insert [] c.server_name c.server_name (touch t c ∷ idle p c.server_name) p.conns,
  insert-insert c.server_name (idle p c.server_name) (touch t c ∷ idle p c.server_name) p.conns,
  read-insert [] c.server_name c.server_name (idle p c.server_name) p.conns,
  eq_refl c.server_name,
)
