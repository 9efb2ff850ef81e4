-- ===== src/Pool/Ownership.antt =====
-- No transport has two owners: it is idle once, lent once or closed once.
pub mod Held
use fi_mcp_kit.Base.{
  ℕ, zero, suc, ◌+◌, ◌-◌, ◌≤◌, ◌<◌, ◌≡◌, ◌∙◌, refl, inl, inr, ◌⊎◌, String, Bool, true, false, not,
  ◌||◌, Option, none, some, List, [], ◌∷◌, ◌++◌, arith, eqb, eq_iff, eq_refl, length, keep_if,
  count_if, count_if-split, if◌then◌else◌, Bool-cases, if_cases, ltb, leb,
}
use fi_mcp_kit.Base.Dict.{
  Dict, Distinct, lookup, read, insert, erase, read-insert, insert-insert, insert-lookup_self,
  lookup_of_read, total, total-insert, total-erase,
}
use fi_mcp_kit.Base.Int.{ℤ, pos, negsuc, at_least}
use fi_mcp_kit.PoolState.{
  Pool, Conn, Config, Outcome, got, dials, waits, fails, idle, active, close_conn, forget_idle,
  lend, touch, reserve, release, new, cancelled,
}
use fi_mcp_kit.Pool.{
  pop_idle, take_idle, await, get_slot, got_or_slot, get, recheck, wake, put, drop_all,
  clear_server, dialled, dial_failed, exhausted_error, close, close_each, reap, reap_each, sweep,
  is_stale,
}
use fi_mcp_kit.Pool.System.{
  System, Step, gets, wakes, dial_returns, dial_fails, puts, clears, closes, reaps, marks, Reach,
  here, next, init, settle, mark, copies, holders,
}
use fi_mcp_kit.Pool.Invariant.{Inv, Reach-Inv}
use Held.{held, Left, get-held, wake-held, put-held, clear_server-held, close-held, reap-held}
use fi_mcp_kit.Pool.Invariant.Bulk.{
  shut, shut_each, shut_stale, drop_all-eq, close_each-eq, sweep-eq, fresh, Current, Current-insert,
  Current-self,
}

module _ (t : ℕ) where
  settle-holders :
      (s : String) (x : System) (r : Pool × Outcome)
      → Left t (held t x.pool) r
      → holders t (settle s x r) ≡ holders t x
  settle-holders s x (p, got c) e = omega arith
  settle-holders s x (p, dials) e = omega arith
  settle-holders s x (p, waits d) e = omega arith
  settle-holders s x (p, fails err) e = omega arith

  copies-mark : (health : ℕ → Bool) (cs : List Conn) → copies t (mark health cs) ≡ copies t cs
  copies-mark health [] = refl
  copies-mark health (c ∷ cs) = omega (arith, copies-mark health cs)

  -- A step moves each handle, or brings in one that was not there.
  Step-holders : {x y : System} → Step x y → Inv x → holders t x ≤ 1 → holders t y ≤ 1
  unfolding dialled dial_failed
  Step-holders {x} (gets s now later ctx) v h =
      rw (settle-holders s x (get s now later ctx x.pool) (get-held t s now later ctx x.pool)) h
  Step-holders {x} (wakes s deadline now ctx) v h =
      rw
        (settle-holders s x (wake s deadline now ctx x.pool)
          (wake-held t s deadline now ctx x.pool))
        h
  Step-holders {x} (dial_returns s before after u now e unused) v h = ground (arith, unused)
  Step-holders {x} (dial_fails s before after e) v h = h
  Step-holders {x} (puts c before after healthy now e) v h = omega (
    arith,
    put-held t (record c { healthy = healthy }) now x.pool,
    count_if-split (λ (d : Conn). eqb d.transport t) before after c x.lent e,
  )
  Step-holders {x} (clears s) v h = omega (arith, clear_server-held t s x.pool v.distinct)
  Step-holders {x} closes v h = omega (arith, close-held t x.pool)
  Step-holders {x} (reaps now) v h = omega (arith, reap-held t now x.pool v.distinct)
  Step-holders {x} (marks s c cs health e) v h = ground (
    arith,
    total-insert (copies t) [] s (mark health (c ∷ cs)) x.pool.conns,
    copies-mark health (c ∷ cs),
    e,
  )

  -- After any interleaving of calls on a new pool whose dials each return a transport that is in no
  -- one's hands, every transport is at most once idle, lent or closed: no connection is lent to two
  -- callers, lent while idle, used after its close, or closed twice.
  pub Reach-holders : (cfg : Config) {x : System} → Reach (init cfg) x → holders t x ≤ 1
  unfolding new
  Reach-holders cfg here = omega arith
  Reach-holders cfg (next r st) = Step-holders st (Reach-Inv cfg r) (Reach-holders cfg r)
