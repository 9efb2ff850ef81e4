-- ===== src/Pool/Invariant.antt =====
-- The books of the pool: what its counters say of the connections, after any history.
pub mod Parts
pub mod Ops
pub mod Bulk
use fi_mcp_kit.Base.{
  ℕ, suc, ◌+◌, ◌≤◌, ◌≡◌, refl, sym, ap, String, Bool, Option, List, [], ◌∷◌, ◌++◌, arith, str_eq,
  eq_iff, eq_refl, length, length-split, count_if, count_if-split, if◌then◌else◌,
}
use fi_mcp_kit.Base.Dict.{read, lookup, insert, read-insert}
use fi_mcp_kit.Base.Int.{dec_by}
use fi_mcp_kit.PoolState.{Pool, Conn, Config, Outcome, got, dials, waits, fails, new, idle}
use fi_mcp_kit.Pool.{dialled, dial_failed, put}
use fi_mcp_kit.Pool.System.{
  System, Step, gets, wakes, dial_returns, dial_fails, puts, clears, closes, reaps, marks, Reach,
  here, next, init, settle, mark,
}
use Parts.{Books, Books-demand, plus, OfServer, release-Books, shrink-Books}
use Ops.{Settled, get-Books, wake-Books, put-Books}
use Bulk.{clear_server-Books, close-Books, reap-Books}

-- The connections and dials of a server that are out, and those of all servers.
abbrev pub demand : System → String → ℕ
demand x s =
    count_if (λ (c : Conn). str_eq c.server_name s) x.lent + count_if (λ d. str_eq d s) x.dialing

abbrev pub out : System → ℕ
out x = length x.lent + length x.dialing

-- The counters are exact, every server stays within its limits, idle connections are filed under
-- their server.
abbrev pub Inv : System → Type 0
Inv x = Books (demand x) (out x) x.pool

init-Inv : (cfg : Config) → Inv (init cfg)
unfolding new read lookup
init-Inv cfg = record {
  active_is = λ j. refl;
  open_le = λ j. omega arith;
  idle_le = λ j. omega arith;
  of_server = λ j. tt;
  distinct = tt;
  active_conns_is = refl;
  idle_conns_is = λ h. refl;
  closed_empty = λ h. refl;
}

settle-Inv :
    (s : String) (x : System) (r : Pool × Outcome)
    → Settled s (demand x) (out x) r
    → Inv (settle s x r)
settle-Inv s x (p, got c) v = Books-demand (λ j. ground (arith, v.1)) (omega arith) v.0
settle-Inv s x (p, dials) v = Books-demand (λ j. omega arith) (omega arith) v
settle-Inv s x (p, waits d) v = v
settle-Inv s x (p, fails e) v = v

mark-length : (health : ℕ → Bool) (cs : List Conn) → length (mark health cs) + 0 ≡ length cs
mark-length health [] = omega arith
mark-length health (c ∷ cs) = omega (arith, mark-length health cs)

mark-OfServer :
    (s : String) (health : ℕ → Bool) (cs : List Conn) → OfServer s cs → OfServer s (mark health cs)
mark-OfServer s health [] h = tt
mark-OfServer s health (c ∷ cs) h = (h.0, mark-OfServer s health cs h.1)

-- A dial that ends is one dial less.
pub undial :
    (s : String) (before after : List String) (x : System)
    → x.dialing ≡ before ++ (s ∷ after)
    → ((j : String) → demand x j ≡ plus s (demand (record x { dialing = before ++ after })) j)
      × (out x ≡ suc (out (record x { dialing = before ++ after })))
undial s before after x e = (
  λ j. omega (arith, count_if-split (λ d. str_eq d j) before after s x.dialing e),
  omega (arith, length-split before after s x.dialing e),
)

pub unlend :
    (c : Conn) (before after : List Conn) (x : System)
    → x.lent ≡ before ++ (c ∷ after)
    → ((j : String)
        → demand x j ≡ plus c.server_name (demand (record x { lent = before ++ after })) j)
      × (out x ≡ suc (out (record x { lent = before ++ after })))
unlend c before after x e = (
  λ j. omega (arith, count_if-split (λ (d : Conn). str_eq d.server_name j) before after c x.lent e),
  omega (arith, length-split before after c x.lent e),
)

-- The environment marks connections of an open pool only, since a closed one has none.
mark-Books :
    (s : String) (health : ℕ → Bool) (c : Conn) (cs : List Conn) {n : String → ℕ} {m : ℕ} (p : Pool)
    → idle p s ≡ c ∷ cs
    → Books n m p
    → Books n m (record p { conns = insert s (mark health (c ∷ cs)) p.conns })
unfolding read lookup
mark-Books s health c cs p e v =
    shrink-Books s p (mark health (c ∷ cs)) 0 p.closes (ground (arith, v.closed_empty, e))
      (omega (arith, mark-length health (c ∷ cs), ap length e))
      (mark-OfServer s health (c ∷ cs) (rw e at (v.of_server s))) v

-- Every step keeps the books.
Step-Inv : {x y : System} → Step x y → Inv x → Inv y
unfolding dialled dial_failed
Step-Inv {x} (gets s now later ctx) v = settle-Inv s x _ (get-Books s now later ctx x.pool v)
Step-Inv {x} (wakes s deadline now ctx) v =
    settle-Inv s x _ (wake-Books s deadline now ctx x.pool v)
Step-Inv {x} (dial_returns s before after t now e _) v =
    let (d, m) = undial s before after x e in Books-demand (λ j. omega (arith, d j)) (omega arith) v
Step-Inv {x} (dial_fails s before after e) v =
    let (d, m) = undial s before after x e in release-Books s x.pool (Books-demand d m v)
Step-Inv {x} (puts c before after healthy now e) v =
    let (d, m) = unlend c before after x e in
    put-Books (record c { healthy = healthy }) now x.pool (Books-demand d m v)
Step-Inv {x} (clears s) v = clear_server-Books s x.pool v
Step-Inv {x} closes v = close-Books x.pool v
Step-Inv {x} (reaps now) v = reap-Books now x.pool v
Step-Inv {x} (marks s c cs health e) v = mark-Books s health c cs x.pool e v

-- After any interleaving of calls on a new pool, whatever its configuration, the health of its
-- connections and the outcome of dials: of every server the active count is the number of its lent
-- connections and running dials, these and its idle connections are together at most max_open, its
-- idle connections are at most max_idle and are its own; ActiveConns is the number of all lent
-- connections and dials, IdleConns that of all idle connections while the pool is open, and a closed
-- pool has none.
pub Reach-Inv : (cfg : Config) {x : System} → Reach (init cfg) x → Inv x
Reach-Inv cfg here = init-Inv cfg
Reach-Inv cfg (next r st) = Step-Inv st (Reach-Inv cfg r)
