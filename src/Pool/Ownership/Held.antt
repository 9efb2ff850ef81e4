-- ===== src/Pool/Ownership/Held.antt =====
-- How often the pool itself has a handle, idle or closed, behind each operation.
use fi_mcp_kit.Base.{
  ℕ, suc, ◌+◌, ◌≡◌, ◌∙◌, refl, String, Option, none, some, List, [], ◌∷◌, arith, eqb, eq_refl,
  count_if, if_cases,
}
use fi_mcp_kit.Base.Dict.{
  Dict, Distinct, read, insert, read-insert, insert-insert, insert-lookup_self, lookup_of_read,
  total, total-insert, total-erase,
}
use fi_mcp_kit.Base.Int.{ℤ, pos}
use fi_mcp_kit.PoolState.{
  Pool, Conn, Outcome, got, dials, waits, fails, idle, close_conn, forget_idle, touch,
}
use fi_mcp_kit.Pool.{
  pop_idle, take_idle, await, get_slot, got_or_slot, get, recheck, wake, put, clear_server, close,
  reap, reap_each,
}
use fi_mcp_kit.Pool.System.{copies}
use fi_mcp_kit.Pool.Invariant.Bulk.{
  shut, shut_each, shut_stale, drop_all-eq, close_each-eq, sweep-eq, fresh, Current, Current-insert,
  Current-self,
}

module _ (t : ℕ) where
  abbrev pub closed_times : List ℕ → ℕ
  closed_times = count_if (λ u. eqb u t)

  -- How often the pool has the handle, idle or closed.
  abbrev pub held : Pool → ℕ
  held p = total (copies t) p.conns + closed_times p.closes

  abbrev pub Left : ℕ → Pool × Outcome → Type 0
  Left h (p, got c) = held p + copies t (c ∷ []) ≡ h
  Left h (p, dials) = held p ≡ h
  Left h (p, waits d) = held p ≡ h
  Left h (p, fails e) = held p ≡ h

  abbrev Took : ℕ → Pool × Option Conn → Type 0
  Took h (p, some c) = held p + copies t (c ∷ []) ≡ h
  Took h (p, none) = held p ≡ h

  -- One connection comes off the idle list.
  held-insert :
      (s : String) (c : Conn) (rest : List Conn) (conns : Dict (List Conn))
      → read [] s conns ≡ c ∷ rest
      → total (copies t) (insert s rest conns) + copies t (c ∷ []) ≡ total (copies t) conns
  held-insert s c rest conns e = ground (arith, total-insert (copies t) [] s rest conns, e)

  pop_idle-held :
      (s : String) (cs : List Conn) (p : Pool)
      → Took (total (copies t) (insert s cs p.conns) + closed_times p.closes) (pop_idle s cs p)
  unfolding pop_idle
  pop_idle-held s [] p = refl
  pop_idle-held s (c ∷ rest) p =
      if_cases (Took _) c.healthy _ _ (λ _. omega (arith, moved))
        (λ _. ground (arith, moved, pop_idle-held s rest (close_conn c (forget_idle p))))
    where
      moved :
          total (copies t) (insert s rest p.conns) + copies t (c ∷ [])
          ≡ total (copies t) (insert s (c ∷ rest) p.conns)
      moved = ground (
        arith,
        held-insert s c rest (insert s (c ∷ rest) p.conns),
        insert-insert s rest (c ∷ rest) p.conns,
        read-insert [] s s (c ∷ rest) p.conns,
        eq_refl s,
      )

  take_idle-held :
      (s : String) (cs : List Conn) (p : Pool) → idle p s ≡ cs → Took (held p) (take_idle s cs p)
  unfolding take_idle
  take_idle-held s [] p e = refl
  take_idle-held s (c ∷ rest) p e = ground (
    arith,
    pop_idle-held s (c ∷ rest) p,
    insert-lookup_self s (c ∷ rest) p.conns (lookup_of_read [] s (c ∷ rest) p.conns e (λ h. cc)),
  )

  await-held :
      (s : String) (deadline now : ℕ) (ctx : Option String) (p : Pool)
      → Left (held p) (await s deadline now ctx p)
  unfolding await
  await-held s deadline now ctx p = ground arith

  get_slot-held :
      (s : String) (now later : ℕ) (ctx : Option String) (w : ℤ) (p : Pool)
      → Left (held p) (get_slot s now later ctx w p)
  unfolding get_slot
  get_slot-held s now later ctx (pos (suc w)) p = ground arith
  get_slot-held s now later ctx _ p = ground arith

  got_or_slot-held :
      (s : String) (now later : ℕ) (ctx : Option String) (h : ℕ) (r : Pool × Option Conn)
      → Took h r
      → Left h (got_or_slot s now later ctx r)
  unfolding got_or_slot
  got_or_slot-held s now later ctx h (p, some c) e = e
  got_or_slot-held s now later ctx h (p, none) e =
      rw (← e) (get_slot-held s now later ctx p.wait_timeout p)

  pub get-held :
      (s : String) (now later : ℕ) (ctx : Option String) (p : Pool)
      → Left (held p) (get s now later ctx p)
  unfolding get
  get-held s now later ctx p =
      if_cases (Left (held p)) p.closed _ _ (λ _. refl)
        λ _.
          got_or_slot-held s now later ctx _ (take_idle s (idle p s) p)
            (take_idle-held s (idle p s) p refl)

  recheck-held :
      (s : String) (deadline now : ℕ) (ctx : Option String) (cs : List Conn) (p : Pool)
      → idle p s ≡ cs
      → Left (held p) (recheck s deadline now ctx cs p)
  unfolding recheck await
  recheck-held s deadline now ctx [] p e = ground arith
  recheck-held s deadline now ctx (c ∷ rest) p e = ground (arith, held-insert s c rest p.conns e)

  pub wake-held :
      (s : String) (deadline now : ℕ) (ctx : Option String) (p : Pool)
      → Left (held p) (wake s deadline now ctx p)
  unfolding wake
  wake-held s deadline now ctx p =
      if_cases (Left (held p)) p.closed _ _ (λ _. refl)
        (λ _. recheck-held s deadline now ctx (idle p s) p refl)

  pub put-held : (c : Conn) (now : ℕ) (p : Pool) → held (put c now p) ≡ held p + copies t (c ∷ [])
  unfolding put
  put-held c now p =
      ground (
        arith,
        total-insert (copies t) [] c.server_name (touch now c ∷ idle p c.server_name) p.conns,
      )

  shut-times :
      (cs : List Conn) (l : List ℕ) → closed_times (shut cs l) ≡ copies t cs + closed_times l
  unfolding shut
  shut-times [] l = omega arith
  shut-times (c ∷ cs) l = omega (arith, shut-times cs (c.transport ∷ l))

  shut_each-times :
      (m : Dict (List Conn)) (l : List ℕ)
      → closed_times (shut_each m l) ≡ total (copies t) m + closed_times l
  unfolding shut_each
  shut_each-times [] l = omega arith
  shut_each-times ((s, cs) ∷ m) l = omega (arith, shut_each-times m (shut cs l), shut-times cs l)

  pub clear_server-held :
      (s : String) (p : Pool) → Distinct p.conns → held (clear_server s p) ≡ held p
  unfolding clear_server
  clear_server-held s p d =
      rw (drop_all-eq (idle p s) p)
        (omega (arith, shut-times (idle p s) p.closes, total-erase (copies t) [] s p.conns refl d))

  pub close-held : (p : Pool) → held (close p) ≡ held p
  unfolding close
  close-held p =
      if_cases (λ q. held q ≡ held p) p.closed _ _ (λ _. refl)
        λ _. rw (close_each-eq p.conns p) (omega (arith, shut_each-times p.conns p.closes))

  sweep-times :
      (timeout now : ℕ) (cs : List Conn) (l : List ℕ)
      → copies t (fresh timeout now cs) + closed_times (shut_stale timeout now cs l)
        ≡ copies t cs + closed_times l
  unfolding shut_stale
  sweep-times timeout now [] l = refl
  sweep-times timeout now (c ∷ cs) l =
      ground (arith, sweep-times timeout now cs l, sweep-times timeout now cs (c.transport ∷ l))

  reap_each-held :
      (now : ℕ) (entries : Dict (List Conn)) (p : Pool)
      → Distinct entries
      → Current entries p.conns
      → held (reap_each now entries p) ≡ held p
  unfolding reap_each
  reap_each-held now [] p d h = refl
  reap_each-held now ((s, cs) ∷ rest) p d h =
      rw (sweep-eq now cs p, reap_each)
        (reap_each-held now rest _ d.1 (Current-insert s _ rest p.conns d.0 h.1)
          ∙ ground (
            arith,
            sweep-times p.idle_timeout now cs p.closes,
            total-insert (copies t) [] s (fresh p.idle_timeout now cs) p.conns,
            h.0,
          ))

  pub reap-held : (now : ℕ) (p : Pool) → Distinct p.conns → held (reap now p) ≡ held p
  unfolding reap
  reap-held now p d =
      if_cases (λ q. held q ≡ held p) p.closed _ _ (λ _. refl)
        (λ _. reap_each-held now p.conns p d (Current-self p.conns d))
