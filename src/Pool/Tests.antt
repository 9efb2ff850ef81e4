-- ===== src/Pool/Tests.antt =====
-- Runs of the pool, and its theorems at a concrete pool: two connections at most, one kept idle.
use fi_mcp_kit.Base.{length, ◌≤◌, ◌≡◌, refl, true, false, none, [], ◌∷◌}
use fi_mcp_kit.Base.Dict.{lookup, insert, read}
use fi_mcp_kit.Base.Int.{pos, negsuc}
use fi_mcp_kit.PoolState.{Config, Conn, new, pos_or, idle, touch}
use fi_mcp_kit.Pool.{
  get, dialled, put, close, reap, take_idle, got_or_slot, get_slot, close_each, wake, recheck,
  await,
}
use fi_mcp_kit.Pool.System.{
  System, gets, dial_returns, puts, Reach, here, next, init, settle, holders,
}
use fi_mcp_kit.Pool.Invariant.{Inv, demand, out, Reach-Inv}
use fi_mcp_kit.Pool.Ownership.{Reach-holders}
use fi_mcp_kit.Pool.Progress.{IsServed, wake-put-IsServed, wake-IsWaiting}
use fi_mcp_kit.Pool.Shutdown.{recent, IsShut, idle-reap, Step-IsShut}

abbrev small : Config
small = record { max_idle = pos 1; max_open = pos 2; idle_timeout = negsuc 0; wait_timeout = pos 0 }

abbrev start : System
start = init small

-- A first Get dials and takes a slot.
abbrev asked : System
asked = settle "git" start (get "git" 0 0 none start.pool)

first_dials : asked.dialing ≡ "git" ∷ []
unfolding get take_idle got_or_slot get_slot new pos_or read lookup
first_dials = refl

abbrev git_conn : Conn
git_conn = record {
  server_name = "git";
  transport = 7;
  created_at = 5;
  last_used = 5;
  healthy = true;
}

abbrev held_one : System
held_one = record asked { lent = dialled "git" 7 5 ∷ []; dialing = [] }

abbrev given_back : System
given_back = record held_one { pool = put git_conn 9 held_one.pool; lent = [] }

kept : idle given_back.pool "git" ≡ touch 9 git_conn ∷ []
unfolding get take_idle got_or_slot get_slot new pos_or put insert read lookup
kept = refl

history : Reach start given_back
unfolding get take_idle got_or_slot get_slot new pos_or dialled read lookup
history =
    next (next (next here (gets "git" 0 0 none)) (dial_returns "git" [] [] 7 5 refl refl))
      (puts git_conn [] [] true 9 refl)

Reach-Inv_example : Inv given_back
Reach-Inv_example = Reach-Inv small history

Reach-holders_example : holders 7 given_back ≤ 1
Reach-holders_example = Reach-holders 7 small history

idle-reap_example :
    idle (reap 400_000_000_000 given_back.pool) "git"
    ≡ recent given_back.pool.idle_timeout 400_000_000_000 (idle given_back.pool "git")
unfolding get take_idle got_or_slot get_slot new pos_or put insert read lookup
idle-reap_example =
    idle-reap 400_000_000_000 "git" given_back.pool refl (Reach-Inv small history).distinct

abbrev shut_down : System
shut_down = record held_one { pool = close held_one.pool }

Step-IsShut_example :
    IsShut (settle "git" shut_down (get "git" 9 9 none shut_down.pool))
    × (out (settle "git" shut_down (get "git" 9 9 none shut_down.pool)) ≤ out shut_down)
    × (length (settle "git" shut_down (get "git" 9 9 none shut_down.pool)).dialing
        ≤ length shut_down.dialing)
unfolding get take_idle got_or_slot get_slot new pos_or close close_each read lookup
Step-IsShut_example = Step-IsShut {x = shut_down} (gets "git" 9 9 none) (refl, refl)

-- A dial takes the only slot, and another caller waits.
abbrev single : Config
single = record {
  max_idle = pos 1;
  max_open = pos 1;
  idle_timeout = negsuc 0;
  wait_timeout = pos 100;
}

abbrev only_taken : System
only_taken = settle "git" (init single) (get "git" 0 0 none (init single).pool)

wake-IsWaiting_example : demand only_taken "git" ≡ 1
unfolding get take_idle got_or_slot get_slot new pos_or read lookup insert wake recheck await
wake-IsWaiting_example = wake-IsWaiting single (next here (gets "git" 0 0 none)) "git" 50 1 none tt

abbrev one_lent : System
one_lent = record only_taken { lent = dialled "git" 7 5 ∷ []; dialing = [] }

abbrev one_lent_history : Reach (init single) one_lent
unfolding get take_idle got_or_slot get_slot new pos_or dialled read lookup
one_lent_history = next (next here (gets "git" 0 0 none)) (dial_returns "git" [] [] 7 5 refl refl)

-- The connection comes back unhealthy, behind the deadline of the caller who waits.
wake-put-IsServed_example :
    IsServed (wake "git" 50 90 none (put (record git_conn { healthy = false }) 60 one_lent.pool))
unfolding get take_idle got_or_slot get_slot new pos_or dialled read lookup
wake-put-IsServed_example =
    wake-put-IsServed single one_lent_history git_conn [] [] false 60 50 90 none refl refl
