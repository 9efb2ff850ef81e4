-- ===== src/Pool/Shutdown.antt =====
-- What the reaper drops, and a pool that is closed.
use fi_mcp_kit.Base.{
  ℕ, ◌+◌, leb, keep_if, ◌≤◌, ◌≡◌, ◌∙◌, refl, String, true, false, Option, none, some, List, [], ◌∷◌,
  arith, eq_iff, length, length-split,
}
use fi_mcp_kit.Base.Dict.{Dict, Distinct, lookup, read, erase-nil, read-insert, total}
use fi_mcp_kit.Base.Int.{pos}
use fi_mcp_kit.PoolState.{Pool, Conn, Outcome, fails, pool_closed, idle}
use fi_mcp_kit.Pool.{get, wake, put, clear_server, close, reap, reap_each, dialled, dial_failed}
use fi_mcp_kit.Pool.System.{
  System, Step, gets, wakes, dial_returns, dial_fails, puts, clears, closes, reaps, marks, settle,
}
use fi_mcp_kit.Pool.Invariant.{out}
use fi_mcp_kit.Pool.Invariant.Parts.{Books}
use fi_mcp_kit.Pool.Invariant.Bulk.{
  drop_all-eq, close_each-eq, sweep-eq, fresh, Current, Current-insert, Current-self,
}

-- The entries not yet swept leave the others as they are.
reap_each-idle :
    (now : ℕ) (s : String) (entries : Dict (List Conn)) (p : Pool)
    → Distinct entries
    → Current entries p.conns
    → idle (reap_each now entries p) s
      ≡ elim (lookup s entries) [ none ↦ idle p s | some cs ↦ fresh p.idle_timeout now cs ]
unfolding reap_each lookup
reap_each-idle now s [] p d h = refl
reap_each-idle now s ((j, cs) ∷ rest) p d h =
    rw (sweep-eq now cs p, reap_each)
      (reap_each-idle now s rest _ d.1 (Current-insert j _ rest p.conns d.0 h.1)
        ∙ ground (arith, eq_iff j s, d.0, read-insert [] j s (fresh p.idle_timeout now cs) p.conns))

-- The connections that were last used at most the timeout before `now`.
abbrev pub recent : ℕ → ℕ → List Conn → List Conn
recent timeout now = keep_if (λ c. leb now (c.last_used + timeout))

fresh-recent : (timeout now : ℕ) (cs : List Conn) → fresh timeout now cs ≡ recent timeout now cs
fresh-recent timeout now [] = refl
fresh-recent timeout now (c ∷ cs) = ground (arith, fresh-recent timeout now cs)

-- In an open pool with one entry for each server, a tick of the reaper leaves of every server just the
-- idle connections that were last used at most the timeout before the tick, in their order.
pub idle-reap :
    (now : ℕ) (s : String) (p : Pool)
    → p.closed ≡ false
    → Distinct p.conns
    → idle (reap now p) s ≡ recent p.idle_timeout now (idle p s)
idle-reap now s p o d = swept ∙ fresh-recent p.idle_timeout now (idle p s)
  where
    swept : idle (reap now p) s ≡ fresh p.idle_timeout now (idle p s)
    swept =
        unfold reap read in
        ground (arith, o, reap_each-idle now s p.conns p d (Current-self p.conns d))

-- Close drops every idle connection and leaves IdleConns at their number.
pub idle_conns-close :
    {n : String → ℕ} {m : ℕ} (p : Pool)
    → Books n m p
    → p.closed ≡ false
    → ((close p).conns ≡ []) × ((close p).stats.idle_conns ≡ pos (total length p.conns))
unfolding close
idle_conns-close p v o = ground (arith, o, close_each-eq p.conns p, v.idle_conns_is)

get-closed :
    (s : String) (now later : ℕ) (ctx : Option String) (p : Pool)
    → p.closed ≡ true
    → get s now later ctx p ≡ (p, fails pool_closed)
unfolding get
get-closed s now later ctx p e = ground arith

wake-closed :
    (s : String) (deadline now : ℕ) (ctx : Option String) (p : Pool)
    → p.closed ≡ true
    → wake s deadline now ctx p ≡ (p, fails pool_closed)
unfolding wake
wake-closed s deadline now ctx p e = ground arith

-- A closed pool stays closed and holds nothing.
abbrev pub IsShut : System → Type 0
IsShut x = (x.pool.closed ≡ true) × (x.pool.conns ≡ [])

settle-IsShut :
    (s : String) (x : System) (r : Pool × Outcome)
    → IsShut x
    → r ≡ (x.pool, fails pool_closed)
    → IsShut (settle s x r)
      × (out (settle s x r) ≤ out x)
      × (length (settle s x r).dialing ≤ length x.dialing)
settle-IsShut s x r h e = rw e ((h.0, h.1), omega arith, omega arith)

-- Whatever happens to a closed pool, it stays closed and empty, no dial is begun, and no more
-- connections and dials are out than before: at most a dial that runs already becomes a connection.
pub Step-IsShut :
    {x y : System}
    → Step x y
    → IsShut x
    → IsShut y × (out y ≤ out x) × (length y.dialing ≤ length x.dialing)
unfolding dialled dial_failed put clear_server close reap read lookup
Step-IsShut {x} (gets s now later ctx) h =
    settle-IsShut s x _ h (get-closed s now later ctx x.pool h.0)
Step-IsShut {x} (wakes s deadline now ctx) h =
    settle-IsShut s x _ h (wake-closed s deadline now ctx x.pool h.0)
Step-IsShut {x} (dial_returns s before after t now e _) h =
    let l = length-split before after s x.dialing e in (h, omega (arith, l), omega (arith, l))
Step-IsShut {x} (dial_fails s before after e) h =
    let l = length-split before after s x.dialing e in (h, omega (arith, l), omega (arith, l))
Step-IsShut {x} (puts c before after healthy now e) h =
    (ground arith, omega (arith, length-split before after c x.lent e), omega arith)
Step-IsShut {x} (clears s) h = (
  (ground (arith, drop_all-eq (idle x.pool s) x.pool), rw h.1 (erase-nil s)),
  omega arith,
  omega arith,
)
Step-IsShut {x} closes h = (ground arith, ground arith, ground arith)
Step-IsShut {x} (reaps now) h = (ground arith, ground arith, ground arith)
Step-IsShut {x} (marks s c cs health e) h = absurd (ground (arith, h.1, e))
