-- ===== src/Router/History.antt =====
-- A router with its history: what New makes and what the recording of outcomes keeps, so that Route
-- does not panic.
use fi_mcp_kit.Base.{ℕ, ◌≡◌, refl, String, Bool, Option, none, some, List, [], ◌∷◌, arith}
use fi_mcp_kit.Base.Dict.{Dict, insert, lookup-insert, lookup-insert_self}
use fi_mcp_kit.Base.Run.{Run, returns, panics}
use fi_mcp_kit.Registry.Types.{Registry, Server}
use fi_mcp_kit.Router.Health.{Health, new_health}
use fi_mcp_kit.Router.Types.{
  Router, Config, Target, local, hub, unavailable, all_healthy, bare, new_with, new, record_success,
  record_failure, build_tool_index, build_index_for, add_tool,
}
use fi_mcp_kit.Router.Index.{ToolIndex, index_of}
use fi_mcp_kit.Router.Route.{route}
use fi_mcp_kit.Router.RouteLaws.{
  Has, Covered, IsCovered, Covered-insert_left, Covered-insert_right, Decides, choice_for, named_in,
  route_lem,
}

-- What changes a router, but for SetRegistry.
pub data Event (A : Type 0) : Type 0 where
  succeeded : String → Target → A → ℕ → Event A
  failed : String → Target → String → ℕ → Event A
  indexed : String → String → Event A
  rebuilt : Event A

module _ {A : Type 0} where
  Has-all_healthy :
      (z : A) (k : String) (servers : List (Option Server)) (m : Dict (Health A))
      {m' : Dict (Health A)}
      → all_healthy z servers m ≡ returns m'
      → Has k m
      → Has k m'
  unfolding all_healthy
  Has-all_healthy z k [] m e h = λ g. ground (arith, e, g, h)
  Has-all_healthy z k (none ∷ rest) m e h = cc
  Has-all_healthy z k (some s ∷ rest) m e h =
      Has-all_healthy z k rest (insert s.name (new_health z) m) e
        (λ g. ground (arith, lookup-insert s.name k (new_health z) m, g, h))

  Covered-all_healthy :
      (z : A) (servers : List (Option Server)) (m : Dict (Health A)) {m' : Dict (Health A)}
      → all_healthy z servers m ≡ returns m'
      → Covered servers m' m'
  unfolding all_healthy
  Covered-all_healthy z [] m e = tt
  Covered-all_healthy z (none ∷ rest) m e = cc
  Covered-all_healthy z (some s ∷ rest) m e =
      let here =
        Has-all_healthy z s.name rest (insert s.name (new_health z) m) e
          (λ g. ground (arith, lookup-insert_self s.name (new_health z) m, g)) in
      (here, here, Covered-all_healthy z rest (insert s.name (new_health z) m) e)

  new_with-IsCovered :
      (z : A) (cfg : Config) (o : Option Registry) {r : Router A}
      → cfg.registry ≡ o
      → new_with z cfg o ≡ returns r
      → IsCovered r.registry r
  unfolding new_with bare
  new_with-IsCovered z cfg none {r} h e = go r (ground (arith, h, e))
    where
      go : (q : Router A) → q.registry ≡ none → IsCovered q.registry q
      go q g = rw g tt
  new_with-IsCovered z cfg (some reg) {r} h e = go (all_healthy z reg.servers []) refl
    where
      done :
          (m : Dict (Health A))
          → Covered reg.servers m m
          → r.registry ≡ some reg
          → r.local_health ≡ m
          → r.hub_health ≡ m
          → IsCovered r.registry r
      done m c g l k = rw (g, l, k) c

      go : (x : Run (Dict (Health A))) → all_healthy z reg.servers [] ≡ x → IsCovered r.registry r
      go (returns m) g =
          done m (Covered-all_healthy z reg.servers [] g) (ground (arith, h, e, g))
            (ground (arith, h, e, g)) (ground (arith, h, e, g))
      go panics g = absurd (ground (arith, h, e, g))

module _ {A : Type 0} (z : A) (is_zero : A → Bool) (blend : A → A → A) where
  unfoldable pub apply : Event A → Router A → Router A
  apply (succeeded n t latency now) r = record_success z is_zero blend n t latency now r
  apply (failed n t message now) r = record_failure z is_zero blend n t message now r
  apply (indexed tool server) r = add_tool tool server r
  apply rebuilt r = build_tool_index r

  unfoldable pub run : List (Event A) → Router A → Router A
  run [] r = r
  run (e ∷ es) r = run es (apply e r)

  keep_left :
      (n : String) (x : Health A) (o : Option Registry) (r : Router A)
      → IsCovered o r
      → IsCovered o (record r { local_health = insert n x r.local_health })
  keep_left n x none r c = tt
  keep_left n x (some reg) r c = Covered-insert_left n x reg.servers r.local_health r.hub_health c

  keep_right :
      (n : String) (x : Health A) (o : Option Registry) (r : Router A)
      → IsCovered o r
      → IsCovered o (record r { hub_health = insert n x r.hub_health })
  keep_right n x none r c = tt
  keep_right n x (some reg) r c = Covered-insert_right n x reg.servers r.local_health r.hub_health c

  keep_index :
      (i : ToolIndex) (o : Option Registry) (r : Router A)
      → IsCovered o r
      → IsCovered o (record r { tool_index = i })
  keep_index i none r c = tt
  keep_index i (some reg) r c = c

  rebuilt-IsCovered :
      (o : Option Registry) (r : Router A)
      → IsCovered r.registry r
      → IsCovered (build_index_for o r).registry (build_index_for o r)
  unfolding build_index_for
  rebuilt-IsCovered none r c = c
  rebuilt-IsCovered (some reg) r c = keep_index (index_of reg) r.registry r c

  apply-IsCovered :
      (e : Event A) (r : Router A)
      → IsCovered r.registry r
      → IsCovered (apply e r).registry (apply e r)
  unfolding apply record_success record_failure add_tool build_tool_index
  apply-IsCovered (succeeded n local latency now) r c = keep_left n _ r.registry r c
  apply-IsCovered (succeeded n hub latency now) r c = keep_right n _ r.registry r c
  apply-IsCovered (succeeded n unavailable latency now) r c = c
  apply-IsCovered (failed n local message now) r c = keep_left n _ r.registry r c
  apply-IsCovered (failed n hub message now) r c = keep_right n _ r.registry r c
  apply-IsCovered (failed n unavailable message now) r c = c
  apply-IsCovered (indexed tool server) r c = keep_index _ r.registry r c
  apply-IsCovered rebuilt r c = unfold build_index_for in rebuilt-IsCovered r.registry r c

  run-IsCovered :
      (es : List (Event A)) (r : Router A)
      → IsCovered r.registry r
      → IsCovered (run es r).registry (run es r)
  unfolding run
  run-IsCovered [] r c = c
  run-IsCovered (e ∷ es) r c = run-IsCovered es (apply e r) (apply-IsCovered e r c)

  -- After any history of recorded successes and failures and of changes of the tool index on a router
  -- that New made, Route does not panic and makes the intended choice.
  pub route-run :
      (cfg : Config) (r : Router A) (es : List (Event A)) (n : String) (now : ℕ)
      → new z cfg ≡ returns r
      → let q = run es r in Decides n (choice_for now n q (named_in n q.registry)) (route n now q)
  unfolding new
  route-run cfg r es n now e =
      route_lem n now (run es r) (run-IsCovered es r (new_with-IsCovered z cfg cfg.registry refl e))
