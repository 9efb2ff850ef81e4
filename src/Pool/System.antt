-- ===== src/Pool/System.antt =====
-- The pool with its callers: who holds a connection, and who is dialling. A step is one section
-- under the mutex, made by any goroutine in any order; other holders of a pointer may change the
-- health of an idle connection at any time.
use fi_mcp_kit.Base.{ℕ, ◌+◌, ◌≡◌, String, Bool, Option, List, [], ◌∷◌, ◌++◌, eqb, count_if}
use fi_mcp_kit.Base.Dict.{total, insert}
use fi_mcp_kit.PoolState.{Pool, Config, Conn, Outcome, got, dials, waits, fails, new, idle}
use fi_mcp_kit.Pool.{get, wake, dialled, dial_failed, put, clear_server, close, reap}

pub record System : Type 0 where
  pub pool : Pool
  pub lent : List Conn
  pub dialing : List String

abbrev pub init : Config → System
init cfg = record { pool = new cfg; lent = []; dialing = [] }

-- What a section of Get leaves behind, by its outcome.
abbrev pub settle : String → System → Pool × Outcome → System
settle s x (p, got c) = record x { pool = p; lent = c ∷ x.lent }
settle s x (p, dials) = record x { pool = p; dialing = s ∷ x.dialing }
settle s x (p, waits d) = record x { pool = p }
settle s x (p, fails e) = record x { pool = p }

-- Idle connections with the health that the environment gives them.
abbrev pub mark : (ℕ → Bool) → List Conn → List Conn
mark health [] = []
mark health (c ∷ cs) = record c { healthy = health c.transport } ∷ mark health cs

-- How often a handle stands among some connections.
abbrev pub copies : ℕ → List Conn → ℕ
copies t = count_if (λ c. eqb c.transport t)

-- How often a handle is idle, lent or closed.
abbrev pub holders : ℕ → System → ℕ
holders t x =
    total (copies t) x.pool.conns + copies t x.lent + count_if (λ u. eqb u t) x.pool.closes

pub data Step (x : System) : System → Type 0 where
  gets :
      (s : String) (now later : ℕ) (ctx : Option String)
      → Step x (settle s x (get s now later ctx x.pool))
  wakes :
      (s : String) (deadline now : ℕ) (ctx : Option String)
      → Step x (settle s x (wake s deadline now ctx x.pool))
  -- A dial returns a transport of its own.
  dial_returns :
      (s : String) (before after : List String) (t now : ℕ)
      → x.dialing ≡ before ++ (s ∷ after)
      → holders t x ≡ 0
      → Step x (record x { lent = dialled s t now ∷ x.lent; dialing = before ++ after })
  dial_fails :
      (s : String) (before after : List String)
      → x.dialing ≡ before ++ (s ∷ after)
      → Step x (record x { pool = dial_failed s x.pool; dialing = before ++ after })
  -- The holder may have changed the connection's health.
  puts :
      (c : Conn) (before after : List Conn) (healthy : Bool) (now : ℕ)
      → x.lent ≡ before ++ (c ∷ after)
      → Step x (record x {
        pool = put (record c { healthy = healthy }) now x.pool;
        lent = before ++ after;
      })
  clears : (s : String) → Step x (record x { pool = clear_server s x.pool })
  closes : Step x (record x { pool = close x.pool })
  reaps : (now : ℕ) → Step x (record x { pool = reap now x.pool })
  marks :
      (s : String) (c : Conn) (cs : List Conn) (health : ℕ → Bool)
      → idle x.pool s ≡ c ∷ cs
      → Step x (record x {
        pool = record x.pool { conns = insert s (mark health (c ∷ cs)) x.pool.conns };
      })

pub data Reach (x : System) : System → Type 0 where
  here : Reach x x
  next : {y z : System} → Reach x y → Step y z → Reach x z
