-- ===== src/Pool.antt =====
-- pkg/pool/pool.go: the connection pool, one function for each section of code under the mutex.
-- Times are nanoseconds and come in as arguments. A transport is its handle, a number; `closes` lists
-- the handles on which Transport.Close was called, newest first. A slice of idle connections is a
-- list with the slice's end first. A waiter may wake at any time, so Broadcast changes nothing here.
pub mod System
pub mod Invariant
pub mod Ownership
pub mod Behaviour
pub mod Shutdown
pub mod Progress
pub mod Tests
use fi_mcp_kit.Base.{
  ℕ, suc, zero, ◌+◌, ◌-◌, String, Bool, true, false, not, ◌||◌, Option, none, some, List, [], ◌∷◌,
  leb, ltb, length, keep_if, if◌then◌else◌,
}
use fi_mcp_kit.PoolState.{
  Conn, Stats, Config, Pool, ExhaustedError, PoolError, Outcome, is_exhausted, pos_or, new, idle,
  active, close_conn, forget_idle, lend, reserve, release, touch, got, dials, waits, fails,
  pool_closed, exhausted, cancelled,
}
use fi_mcp_kit.Base.Dict.{Dict, read, insert, erase, total}
use fi_mcp_kit.Base.Int.{ℤ, pos, negsuc, inc, dec, at_least}

-- The loop of Get over the idle connections: unhealthy ones are closed, the first healthy one is
-- lent.
pub pop_idle : String → List Conn → Pool → Pool × Option Conn
pop_idle s [] p = (record p { conns = insert s [] p.conns }, none)
pop_idle s (c ∷ rest) p =
    if c.healthy
    then (lend s (record (forget_idle p) { conns = insert s rest p.conns }), some c)
    else pop_idle s rest (close_conn c (forget_idle p))

pub take_idle : String → List Conn → Pool → Pool × Option Conn
unfolding pop_idle
take_idle s [] p = (p, none)
take_idle s (c ∷ rest) p = pop_idle s (c ∷ rest) p

abbrev exhausted_error : String → Pool → ℤ → Outcome
exhausted_error s p w =
    fails (exhausted (record { server_name = s; max_open = p.max_open; waited = w }))

-- The head of the waiting loop, up to cond.Wait, and what follows the loop.
pub await : String → ℕ → ℕ → Option String → Pool → Pool × Outcome
await s deadline now ctx p =
    if at_least (active p s) p.max_open
    then elim ctx [
      | some e ↦ (p, fails (cancelled e))
      | none ↦
          if leb deadline now then (p, exhausted_error s p p.wait_timeout) else (p, waits deadline)
    ]
    else (reserve s p, dials)

-- What Get does when no idle connection is left; `now` sets the deadline, `later` is the clock in
-- the loop.
pub get_slot : String → ℕ → ℕ → Option String → ℤ → Pool → Pool × Outcome
unfolding await
get_slot s now later ctx (pos (suc w)) p = await s (now + suc w) later ctx p
get_slot s now later ctx _ p =
    if at_least (active p s) p.max_open
    then (p, exhausted_error s p (pos 0))
    else (reserve s p, dials)

pub got_or_slot : String → ℕ → ℕ → Option String → Pool × Option Conn → Pool × Outcome
unfolding get_slot
got_or_slot s now later ctx (p, some c) = (p, got (touch now c))
got_or_slot s now later ctx (p, none) = get_slot s now later ctx p.wait_timeout p

-- Get, up to its first wait or its dial.
pub get : String → ℕ → ℕ → Option String → Pool → Pool × Outcome
unfolding take_idle got_or_slot
get s now later ctx p =
    if p.closed
    then (p, fails pool_closed)
    else got_or_slot s now later ctx (take_idle s (idle p s) p)

pub recheck : String → ℕ → ℕ → Option String → List Conn → Pool → Pool × Outcome
unfolding await
recheck s deadline now ctx [] p = await s deadline now ctx p
recheck s deadline now ctx (c ∷ rest) p =
    let q = record (forget_idle p) { conns = insert s rest p.conns } in
    if c.healthy then (lend s q, got (touch now c)) else await s deadline now ctx (close_conn c q)

-- Get, from a return of cond.Wait to the next wait or to its end.
pub wake : String → ℕ → ℕ → Option String → Pool → Pool × Outcome
unfolding recheck
wake s deadline now ctx p =
    if p.closed then (p, fails pool_closed) else recheck s deadline now ctx (idle p s) p

-- The end of Get behind dialFunc: the new connection, or the slot given back.
pub dialled : String → ℕ → ℕ → Conn
dialled s t now = record {
  server_name = s;
  transport = t;
  created_at = now;
  last_used = now;
  healthy = true;
}

pub dial_failed : String → Pool → Pool
dial_failed s p = release s p

pub put : Conn → ℕ → Pool → Pool
put c now p =
    if p.closed || not c.healthy
    then close_conn c (release c.server_name p)
    else if leb p.max_idle (length (idle p c.server_name))
    then close_conn c (release c.server_name p)
    else let q = release c.server_name p in
      record q {
        conns = insert c.server_name (touch now c ∷ idle p c.server_name) p.conns;
        stats = record q.stats { idle_conns = inc p.stats.idle_conns };
      }

pub drop_all : List Conn → Pool → Pool
drop_all [] p = p
drop_all (c ∷ cs) p = drop_all cs (forget_idle (close_conn c p))

pub clear_server : String → Pool → Pool
clear_server s p = let q = drop_all (idle p s) p in record q { conns = erase s p.conns }

pub close_list : List Conn → Pool → Pool
close_list [] p = p
close_list (c ∷ cs) p = close_list cs (close_conn c p)

pub close_each : Dict (List Conn) → Pool → Pool
close_each [] p = p
close_each ((s, cs) ∷ m) p = close_each m (close_list cs p)

-- Close. The map is set to nil, which reads as empty.
pub close : Pool → Pool
close p = if p.closed then p else record (close_each p.conns p) { closed = true; conns = [] }

abbrev pub is_stale : ℕ → ℕ → Conn → Bool
is_stale timeout now c = ltb timeout (now - c.last_used)

pub sweep : ℕ → List Conn → Pool → Pool
sweep now [] p = p
sweep now (c ∷ cs) p =
    sweep now cs (if is_stale p.idle_timeout now c then forget_idle (close_conn c p) else p)

pub reap_each : ℕ → Dict (List Conn) → Pool → Pool
reap_each now [] p = p
reap_each now ((s, cs) ∷ m) p =
    let keep = keep_if (λ c. not (is_stale p.idle_timeout now c)) cs in
    let q = sweep now cs p in reap_each now m (record q { conns = insert s keep q.conns })

-- One tick of reapLoop.
pub reap : ℕ → Pool → Pool
reap now p = if p.closed then p else reap_each now p.conns p
