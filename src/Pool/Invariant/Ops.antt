-- ===== src/Pool/Invariant/Ops.antt =====
-- Each operation keeps the books, whatever its branch.
use fi_mcp_kit.Base.{
  ℕ, suc, ◌+◌, ◌<◌, ◌≡◌, refl, ◌⊎◌, inl, inr, String, false, not, ◌||◌, Option, none, some, List,
  [], ◌∷◌, arith, eq_refl, length, if◌then◌else◌, Bool-cases, if_cases, leb,
}
use fi_mcp_kit.Base.Dict.{
  read, insert, read-insert, insert-insert, insert-lookup_self, lookup_of_read,
}
use fi_mcp_kit.Base.Int.{ℤ, pos, at_least}
use fi_mcp_kit.PoolState.{
  Pool, Conn, Outcome, cancelled, release, got, dials, waits, fails, idle, active, close_conn,
  forget_idle, touch,
}
use fi_mcp_kit.Pool.{
  exhausted_error, pop_idle, take_idle, await, get_slot, got_or_slot, get, recheck, wake, put,
}
use fi_mcp_kit.Pool.Invariant.Parts.{
  Books, plus, OfServer, reserve-Books, release-Books, forget-Books, close_conn-Books, lend-Books,
  keep-Books,
}

-- What a section of Get leaves: the demand grows by the connection or by the dial.
abbrev pub Settled : String → (String → ℕ) → ℕ → Pool × Outcome → Type 0
Settled s n m (p, got c) = Books (plus s n) (suc m) p × (c.server_name ≡ s)
Settled s n m (p, dials) = Books (plus s n) (suc m) p
Settled s n m (p, waits d) = Books n m p
Settled s n m (p, fails e) = Books n m p

abbrev Popped : String → (String → ℕ) → ℕ → Pool × Option Conn → Type 0
Popped s n m (p, some c) = Books (plus s n) (suc m) p × (c.server_name ≡ s)
Popped s n m (p, none) = Books n m p × (idle p s ≡ [])

module _ (s : String) {n : String → ℕ} {m : ℕ} where
  pop_idle-Books :
      (cs : List Conn) (p : Pool)
      → p.closed ≡ false
      → Books n m (record p { conns = insert s cs p.conns })
      → Popped s n m (pop_idle s cs p)
  unfolding pop_idle
  pop_idle-Books [] p o v = (v, rw (read-insert [] s s [] p.conns, eq_refl s))
  pop_idle-Books (c ∷ rest) p o v = elim (Bool-cases c.healthy) [
    | inl e ↦ rw e (lend-Books s _ popped room, named.0)
    | inr e ↦
        rw e (pop_idle-Books rest (close_conn c (forget_idle p)) o (close_conn-Books s _ c popped))
  ]
    where
      here : read [] s (insert s (c ∷ rest) p.conns) ≡ c ∷ rest
      here = rw (read-insert [] s s (c ∷ rest) p.conns, eq_refl s)

      popped : Books n m (record (forget_idle p) { conns = insert s rest p.conns })
      popped =
          rw (insert-insert s rest (c ∷ rest) p.conns) at
            (forget-Books s (record p { conns = insert s (c ∷ rest) p.conns }) c rest o here v)

      named : OfServer s (c ∷ rest)
      named = rw here at (v.of_server s)

      room : n s + length (read [] s (insert s rest p.conns)) < p.max_open
      room = ground (arith, v.open_le s, here, read-insert [] s s rest p.conns, eq_refl s)

  take_idle-Books :
      (cs : List Conn) (p : Pool)
      → idle p s ≡ cs
      → p.closed ≡ false
      → Books n m p
      → Popped s n m (take_idle s cs p)
  unfolding take_idle
  take_idle-Books [] p e o v = (v, e)
  take_idle-Books (c ∷ rest) p e o v = pop_idle-Books (c ∷ rest) p o (rw same v)
    where
      same : insert s (c ∷ rest) p.conns ≡ p.conns
      same =
          insert-lookup_self s (c ∷ rest) p.conns
            (lookup_of_read [] s (c ∷ rest) p.conns e (λ h. cc))

  -- A slot is free when the test passes and either no connection is idle or one was just dropped.
  room_of_test :
      (p : Pool)
      → Books n m p
      → (idle p s ≡ []) ⊎ (n s + length (idle p s) < p.max_open)
      → at_least (active p s) p.max_open ≡ false
      → n s + length (idle p s) < p.max_open
  room_of_test p v r h = ground (arith, v.active_is s, r)

  await-Books :
      (deadline now : ℕ) (ctx : Option String) (p : Pool)
      → (idle p s ≡ []) ⊎ (n s + length (idle p s) < p.max_open)
      → Books n m p
      → Settled s n m (await s deadline now ctx p)
  unfolding await
  await-Books deadline now ctx p r v =
      if_cases (Settled s n m) (at_least (active p s) p.max_open) _ _ (λ full. waiting ctx)
        (λ free. reserve-Books s p v (room_of_test p v r free))
    where
      waiting :
          (ctx : Option String)
          → Settled s n m (elim ctx [
            | some e ↦ (p, fails (cancelled e))
            | none ↦
                if leb deadline now
                then (p, exhausted_error s p p.wait_timeout)
                else (p, waits deadline)
          ])
      waiting (some e) = v
      waiting none = if_cases (Settled s n m) (leb deadline now) _ _ (λ _. v) (λ _. v)

  get_slot-Books :
      (now later : ℕ) (ctx : Option String) (w : ℤ) (p : Pool)
      → idle p s ≡ []
      → Books n m p
      → Settled s n m (get_slot s now later ctx w p)
  unfolding get_slot
  get_slot-Books now later ctx (pos (suc w)) p e v = await-Books (now + suc w) later ctx p (inl e) v
  get_slot-Books now later ctx _ p e v =
      if_cases (Settled s n m) (at_least (active p s) p.max_open) _ _ (λ full. v)
        (λ free. reserve-Books s p v (room_of_test p v (inl e) free))

got_or_slot-Books :
    (s : String) (n : String → ℕ) (m : ℕ) (now later : ℕ) (ctx : Option String)
    (r : Pool × Option Conn)
    → Popped s n m r
    → Settled s n m (got_or_slot s now later ctx r)
unfolding got_or_slot
got_or_slot-Books s n m now later ctx (p, some c) h = h
got_or_slot-Books s n m now later ctx (p, none) h =
    get_slot-Books s now later ctx p.wait_timeout p h.1 h.0

module _ (s : String) {n : String → ℕ} {m : ℕ} where
  pub get-Books :
      (now later : ℕ) (ctx : Option String) (p : Pool)
      → Books n m p
      → Settled s n m (get s now later ctx p)
  unfolding get
  get-Books now later ctx p v =
      if_cases (Settled s n m) p.closed _ _ (λ _. v)
        λ o.
          got_or_slot-Books s n m now later ctx (take_idle s (idle p s) p)
            (take_idle-Books s (idle p s) p refl o v)

  recheck-Books :
      (deadline now : ℕ) (ctx : Option String) (cs : List Conn) (p : Pool)
      → idle p s ≡ cs
      → p.closed ≡ false
      → Books n m p
      → Settled s n m (recheck s deadline now ctx cs p)
  unfolding recheck
  recheck-Books deadline now ctx [] p e o v = await-Books s deadline now ctx p (inl e) v
  recheck-Books deadline now ctx (c ∷ rest) p e o v = elim (Bool-cases c.healthy) [
    | inl well ↦ rw well (lend-Books s _ popped room, (rw e at (v.of_server s)).0)
    | inr ill ↦ rw ill (await-Books s deadline now ctx _ (inr room) (close_conn-Books s _ c popped))
  ]
    where
      popped : Books n m (record (forget_idle p) { conns = insert s rest p.conns })
      popped = forget-Books s p c rest o e v

      room : n s + length (read [] s (insert s rest p.conns)) < p.max_open
      room = ground (arith, v.open_le s, e, read-insert [] s s rest p.conns, eq_refl s)

  pub wake-Books :
      (deadline now : ℕ) (ctx : Option String) (p : Pool)
      → Books n m p
      → Settled s n m (wake s deadline now ctx p)
  unfolding wake
  wake-Books deadline now ctx p v =
      if_cases (Settled s n m) p.closed _ _ (λ _. v)
        (λ o. recheck-Books deadline now ctx (idle p s) p refl o v)

-- A connection that comes back is kept or closed; either way its slot is free again.
pub put-Books :
    (c : Conn) (now : ℕ) {n : String → ℕ} {m : ℕ} (p : Pool)
    → Books (plus c.server_name n) (suc m) p
    → Books n m (put c now p)
unfolding put
put-Books c now {n} {m} p v =
    if_cases (Books n m) (p.closed || not c.healthy) _ _ (λ _. shut)
      λ fine.
        if_cases (Books n m) (leb p.max_idle (length (idle p c.server_name))) _ _ (λ _. shut)
          λ room.
            keep-Books c.server_name (release c.server_name p) (touch now c) (ground arith) refl
              (ground arith) slack freed
  where
    freed : Books n m (release c.server_name p)
    freed = release-Books c.server_name p v

    shut : Books n m (close_conn c (release c.server_name p))
    shut = close_conn-Books c.server_name (release c.server_name p) c freed

    slack : n c.server_name + length (idle p c.server_name) < p.max_open
    slack = ground (arith, v.open_le c.server_name, eq_refl c.server_name)
