-- ===== src/PoolState.antt =====
-- The data of pkg/pool/pool.go, New, and the changes that its operations make to the counters.
use fi_mcp_kit.Base.{ℕ, suc, zero, ◌+◌, String, Bool, true, false, List, [], ◌∷◌}
use fi_mcp_kit.Base.Dict.{Dict, read, insert}
use fi_mcp_kit.Base.Int.{ℤ, pos, negsuc, inc, dec}

pub record Conn : Type 0 where
  pub server_name : String
  pub transport : ℕ
  pub created_at : ℕ
  pub last_used : ℕ
  pub healthy : Bool

pub record Stats : Type 0 where
  pub total_conns : ℤ
  pub active_conns : ℤ
  pub idle_conns : ℤ
  pub hits : ℕ
  pub misses : ℕ

pub record Config : Type 0 where
  pub max_idle : ℤ
  pub max_open : ℤ
  pub idle_timeout : ℤ
  pub wait_timeout : ℤ

pub record Pool : Type 0 where
  pub max_idle : ℕ
  pub max_open : ℕ
  pub idle_timeout : ℕ
  pub wait_timeout : ℤ
  pub conns : Dict (List Conn)
  pub active_count : Dict ℤ
  pub stats : Stats
  pub closed : Bool
  pub closes : List ℕ

pub record ExhaustedError : Type 0 where
  pub server_name : String
  pub max_open : ℕ
  pub waited : ℤ

pub data PoolError : Type 0 where
  pool_closed : PoolError
  exhausted : ExhaustedError → PoolError
  cancelled : String → PoolError

-- What a section of Get ends with: a connection, a dial to make with the slot already taken, a wait
-- on the condition variable until the deadline, or an error.
pub data Outcome : Type 0 where
  got : Conn → Outcome
  dials : Outcome
  waits : ℕ → Outcome
  fails : PoolError → Outcome

-- errors.Is(err, ErrExhausted)
unfoldable pub is_exhausted : PoolError → Bool
is_exhausted (exhausted e) = true
is_exhausted pool_closed = false
is_exhausted (cancelled e) = false

-- `if x <= 0 { x = d }`
unfoldable pub pos_or : ℕ → ℤ → ℕ
pos_or d (pos zero) = d
pos_or d (pos (suc n)) = suc n
pos_or d (negsuc n) = d

unfoldable pub new : Config → Pool
unfolding pos_or
new cfg = record {
  max_idle = pos_or 2 cfg.max_idle;
  max_open = pos_or 10 cfg.max_open;
  idle_timeout = pos_or 300_000_000_000 cfg.idle_timeout;
  wait_timeout = cfg.wait_timeout;
  conns = [];
  active_count = [];
  stats = record {
    total_conns = pos 0;
    active_conns = pos 0;
    idle_conns = pos 0;
    hits = 0;
    misses = 0;
  };
  closed = false;
  closes = [];
}

-- p.conns[serverName] and p.activeCount[serverName]
abbrev pub idle : Pool → String → List Conn
idle p s = read [] s p.conns

abbrev pub active : Pool → String → ℤ
active p s = read (pos 0) s p.active_count

abbrev pub close_conn : Conn → Pool → Pool
close_conn c p = record p { closes = c.transport ∷ p.closes }

abbrev pub forget_idle : Pool → Pool
forget_idle p = record p { stats = record p.stats { idle_conns = dec p.stats.idle_conns } }

-- activeCount++, Hits++, ActiveConns++
abbrev pub lend : String → Pool → Pool
lend s p = record p {
  active_count = insert s (inc (active p s)) p.active_count;
  stats = record p.stats { hits = p.stats.hits + 1; active_conns = inc p.stats.active_conns };
}

-- activeCount++, Misses++, TotalConns++, ActiveConns++
abbrev pub reserve : String → Pool → Pool
reserve s p = record p {
  active_count = insert s (inc (active p s)) p.active_count;
  stats = record p.stats {
    misses = p.stats.misses + 1;
    total_conns = inc p.stats.total_conns;
    active_conns = inc p.stats.active_conns;
  };
}

-- activeCount--, ActiveConns--
abbrev pub release : String → Pool → Pool
release s p = record p {
  active_count = insert s (dec (active p s)) p.active_count;
  stats = record p.stats { active_conns = dec p.stats.active_conns };
}

abbrev pub touch : ℕ → Conn → Conn
touch now c = record c { last_used = now }
