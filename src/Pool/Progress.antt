-- ===== src/Pool/Progress.antt =====
-- The waiters of pkg/pool: one waits only while all slots of its server are taken, and is served when it
-- wakes behind a return of one.
use fi_mcp_kit.Base.{
  ℕ, ◌≤◌, ◌<◌, ◌≡◌, refl, ◌∙◌, String, Bool, true, false, Option, List, [], ◌∷◌, ◌++◌, arith,
  eq_refl, if_cases,
}
use fi_mcp_kit.Base.Int.{ℤ, pos, at_least}
use fi_mcp_kit.PoolState.{Pool, Conn, Config, Outcome, got, dials, waits, idle, active}
use fi_mcp_kit.Pool.{await, recheck, wake, put, dial_failed}
use fi_mcp_kit.Pool.System.{System, puts, dial_fails, Reach, next, init}
use fi_mcp_kit.Pool.Invariant.{demand, unlend, undial, Reach-Inv}

-- The caller has a connection, or a slot to dial with.
abbrev pub IsServed : Pool × Outcome → Type 0
IsServed (p, got c) = Unit
IsServed (p, dials) = Unit
IsServed (p, _) = ⊥

abbrev pub IsWaiting : Pool × Outcome → Type 0
IsWaiting (p, waits deadline) = Unit
IsWaiting (p, _) = ⊥

await-IsServed :
    (s : String) (deadline now : ℕ) (ctx : Option String) (p : Pool)
    → at_least (active p s) p.max_open ≡ false
    → IsServed (await s deadline now ctx p)
unfolding await
await-IsServed s deadline now ctx p h = rw h tt

recheck-IsServed :
    (s : String) (deadline now : ℕ) (ctx : Option String) (cs : List Conn) (p : Pool)
    → at_least (active p s) p.max_open ≡ false
    → IsServed (recheck s deadline now ctx cs p)
unfolding recheck
recheck-IsServed s deadline now ctx [] p h = await-IsServed s deadline now ctx p h
recheck-IsServed s deadline now ctx (c ∷ rest) p h =
    if_cases IsServed c.healthy _ _ (λ e. tt) (λ e. await-IsServed s deadline now ctx _ h)

wake-IsServed :
    (s : String) (deadline now : ℕ) (ctx : Option String) (p : Pool)
    → p.closed ≡ false
    → at_least (active p s) p.max_open ≡ false
    → IsServed (wake s deadline now ctx p)
unfolding wake
wake-IsServed s deadline now ctx p o h =
    if_cases IsServed p.closed _ _ (λ e. absurd (ground (arith, e, o)))
      (λ e. recheck-IsServed s deadline now ctx (idle p s) p h)

put_keeps :
    (c : Conn) (t : ℕ) (p : Pool)
    → ((put c t p).closed ≡ p.closed) × ((put c t p).max_open ≡ p.max_open)
unfolding put
put_keeps c t p = (ground arith, ground arith)

has_room : {a : ℤ} {n m k : ℕ} → a ≡ pos n → m ≡ k → n < k → at_least a m ≡ false
has_room e f h = ground (arith, e, f, h)

module _ (cfg : Config) {x : System} where
  -- In an open pool, after any interleaving of calls, a caller who wakes behind a Put of a connection
  -- of its server is served: it gets a connection or a slot to dial with, whatever its deadline, its
  -- context and the health of the connection.
  pub wake-put-IsServed :
      Reach (init cfg) x
      → (c : Conn) (before after : List Conn) (healthy : Bool) (t deadline now : ℕ)
        (ctx : Option String)
      → x.pool.closed ≡ false
      → x.lent ≡ before ++ (c ∷ after)
      → IsServed
          (wake c.server_name deadline now ctx (put (record c { healthy = healthy }) t x.pool))
  wake-put-IsServed reach c before after healthy t deadline now ctx o e =
      let p = put (record c { healthy = healthy }) t x.pool in
      let s = c.server_name in
      let kept = put_keeps (record c { healthy = healthy }) t x.pool in
      let behind = Reach-Inv cfg (next reach (puts c before after healthy t e)) in
      let less = (unlend c before after x e).0 s in
      wake-IsServed s deadline now ctx p (kept.0 ∙ o) (
        has_room (behind.active_is s) kept.1
          (ground (arith, less, eq_refl s, (Reach-Inv cfg reach).open_le s)))

  -- The same behind a dial for its server that fails.
  pub wake-dial_failed-IsServed :
      Reach (init cfg) x
      → (s : String) (before after : List String) (deadline now : ℕ) (ctx : Option String)
      → x.pool.closed ≡ false
      → x.dialing ≡ before ++ (s ∷ after)
      → IsServed (wake s deadline now ctx (dial_failed s x.pool))
  unfolding dial_failed
  wake-dial_failed-IsServed reach s before after deadline now ctx o e =
      let behind = Reach-Inv cfg (next reach (dial_fails s before after e)) in
      let less = (undial s before after x e).0 s in
      wake-IsServed s deadline now ctx (dial_failed s x.pool) o (
        has_room (behind.active_is s) refl
          (ground (arith, less, eq_refl s, (Reach-Inv cfg reach).open_le s)))

await-full :
    (s : String) (deadline now : ℕ) (ctx : Option String) (p : Pool)
    → IsWaiting (await s deadline now ctx p)
    → at_least (active p s) p.max_open ≡ true
unfolding await
await-full s deadline now ctx p w = ground (arith, w)

recheck-full :
    (s : String) (deadline now : ℕ) (ctx : Option String) (cs : List Conn) (p : Pool)
    → IsWaiting (recheck s deadline now ctx cs p)
    → at_least (active p s) p.max_open ≡ true
unfolding recheck
recheck-full s deadline now ctx [] p = await-full s deadline now ctx p
recheck-full s deadline now ctx (c ∷ rest) p =
    if_cases (λ r. IsWaiting r → at_least (active p s) p.max_open ≡ true) c.healthy _ _
      (λ e w. absurd w) (λ e w. await-full s deadline now ctx _ w)

wake-full :
    (s : String) (deadline now : ℕ) (ctx : Option String) (p : Pool)
    → IsWaiting (wake s deadline now ctx p)
    → at_least (active p s) p.max_open ≡ true
unfolding wake
wake-full s deadline now ctx p =
    if_cases (λ r. IsWaiting r → at_least (active p s) p.max_open ≡ true) p.closed _ _
      (λ e w. absurd w) (λ e w. recheck-full s deadline now ctx (idle p s) p w)

no_room : {a : ℤ} {n m : ℕ} → a ≡ pos n → at_least a m ≡ true → m ≤ n
no_room e h = ground (arith, e, h)

-- A caller goes on waiting only while the connections and dials of its server that are out are as many
-- as the pool allows: there is one to return.
pub wake-IsWaiting :
    (cfg : Config) {x : System}
    → Reach (init cfg) x
    → (s : String) (deadline now : ℕ) (ctx : Option String)
    → IsWaiting (wake s deadline now ctx x.pool)
    → demand x s ≡ x.pool.max_open
wake-IsWaiting cfg {x} reach s deadline now ctx w =
    let inv = Reach-Inv cfg reach in
    omega (arith, inv.open_le s, no_room (inv.active_is s) (wake-full s deadline now ctx x.pool w))
