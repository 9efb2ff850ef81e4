-- ===== src/Process/ManagerLaws.antt =====
-- What Start gives for a server that runs, and what ReapIdle and StopAll leave.
use fi_mcp_kit.Base.{
  ℕ, ◌+◌, not, leb, ◌≡◌, ◌≢◌, subst, refl, inl, inr, String, Bool, true, false, ◌||◌, Option, none,
  some, List, [], ◌∷◌, arith, str_eq, eq_iff, contains, if◌then◌else◌, if_cases, Bool-cases,
}
use fi_mcp_kit.Base.Dict.{Dict, Distinct, lookup, lookup-insert_self, lookup-erase}
use fi_mcp_kit.Base.Run.{Run, returns, panics}
use fi_mcp_kit.Base.Value.{Value}
use fi_mcp_kit.Registry.Types.{Registry, TargetSpec}
use fi_mcp_kit.Process.Manager.{
  Process, Manager, Launch, launched, not_launched, Started, started, failed, Command, ssh_host,
  command_of, adopt, launch, launch_with, start_found, start, transport_of, stop_found, stop,
  stop_each, names, stop_all, to_reap, reap_idle,
}

-- The server has an entry that Start takes for running.
abbrev pub Runs : String → Process → Manager → Type 0
Runs n p m = (lookup n m.procs ≡ some p) × ((p.has_cmd || p.has_ssh) ≡ true)

-- An answer of Start that is a process leaves it in the table, as one that runs.
abbrev Leaves : String → Started × Manager → Type 0
Leaves n (started p, m) = Runs n p m
Leaves n (failed e, m) = Unit

abbrev LeavesIn : String → Run (Started × Manager) → Type 0
LeavesIn n panics = Unit
LeavesIn n (returns x) = Leaves n x

module _ (expand : String → String) (sprint : Value → String) (environ : List (String × String))
    (exec : Command → Launch) (dial_ssh : String → TargetSpec → Launch) where
  adopt-Leaves :
      (n : String) (now : ℕ) (ssh : Bool) (l : Launch) (m : Manager)
      → Leaves n (adopt expand sprint environ exec dial_ssh n now ssh l m)
  unfolding adopt
  adopt-Leaves n now ssh (not_launched e) m = tt
  adopt-Leaves n now true (launched t) m = (lookup-insert_self n _ m.procs, refl)
  adopt-Leaves n now false (launched t) m = (lookup-insert_self n _ m.procs, refl)

  launch-Leaves :
      (n : String) (now : ℕ) (spec : Option TargetSpec) (m : Manager)
      → Leaves n (launch expand sprint environ exec dial_ssh n now spec m)
  unfolding launch
  launch-Leaves n now none m = tt
  launch-Leaves n now (some spec) m =
      if_cases (Leaves n) (str_eq spec.command "") _ _ (λ e. tt)
        (λ e.
          if_cases (Leaves n) (str_eq (ssh_host spec.ssh) "") _ _
            (λ s.
              adopt-Leaves n now false (exec (command_of expand sprint environ exec dial_ssh spec))
                m)
            (λ s. adopt-Leaves n now true (dial_ssh n spec) m))

  launch_with-Leaves :
      (n : String) (now : ℕ) (x : Run (Option TargetSpec × Registry)) (m : Manager)
      → LeavesIn n (launch_with expand sprint environ exec dial_ssh n now x m)
  unfolding launch_with
  launch_with-Leaves n now panics m = tt
  launch_with-Leaves n now (returns (spec, reg)) m = launch-Leaves n now spec _

  start_found-Leaves :
      (n : String) (now : ℕ) (o : Option Process) (m : Manager)
      → LeavesIn n (start_found expand sprint environ exec dial_ssh n now o m)
  unfolding start_found
  start_found-Leaves n now none m = launch_with-Leaves n now _ m
  start_found-Leaves n now (some p) m =
      if_cases (LeavesIn n) (p.has_cmd || p.has_ssh) _ _ (λ e. (lookup-insert_self n _ m.procs, e))
        (λ e. launch_with-Leaves n now _ m)

  running :
      (n : String) (now : ℕ) (p : Process) (m : Manager)
      → Runs n p m
      → transport_of (start expand sprint environ exec dial_ssh n now m) ≡ some p.transport
  unfolding start start_found
  running n now p m r = rw r.0 (simp r.1 refl)

  -- Behind a Start that succeeded, whatever it found, a second Start of the server, with nothing
  -- between, gives the same transport, and so does Dial, which returns the transport of Start.
  pub transport_of-start :
      (n : String) (now later : ℕ) (m : Manager) {p : Process} {m' : Manager}
      → start expand sprint environ exec dial_ssh n now m ≡ returns (started p, m')
      → transport_of (start expand sprint environ exec dial_ssh n later m') ≡ some p.transport
  transport_of-start n now later m {p} {m'} e =
      running n later p m'
        (subst (LeavesIn n) e (unfold start in start_found-Leaves n now (lookup n m.procs) m))

lookup-stop :
    (n k : String) (m : Manager)
    → lookup n (stop k m).procs ≡ (if str_eq k n then none else lookup n m.procs)
unfolding stop
lookup-stop n k m = go (lookup k m.procs) refl
  where
    go :
        (o : Option Process)
        → lookup k m.procs ≡ o
        → lookup n (stop_found k o m).procs ≡ (if str_eq k n then none else lookup n m.procs)
    go none e = unfold stop_found in ground (arith, e, eq_iff k n)
    go (some p) e = unfold stop_found in lookup-erase k n m.procs

lookup-stop_each :
    (n : String) (ns : List String) (m : Manager)
    → lookup n (stop_each ns m).procs ≡ (if contains ns n then none else lookup n m.procs)
unfolding stop_each
lookup-stop_each n [] m = refl
lookup-stop_each n (k ∷ ns) m = ground (arith, lookup-stop_each n ns (stop k m), lookup-stop n k m)

-- Whether there is an entry, and its last activity is more than the timeout before `now`.
abbrev pub is_quiet : ℕ → ℕ → Option Process → Bool
is_quiet now timeout none = false
is_quiet now timeout (some p) = not (leb now (p.last_activity + timeout))

contains-to_reap :
    (n : String) (now timeout : ℕ) (d : Dict Process)
    → Distinct d
    → contains (to_reap now timeout d) n ≡ is_quiet now timeout (lookup n d)
unfolding lookup
contains-to_reap n now timeout [] h = refl
contains-to_reap n now timeout ((k, p) ∷ d) h =
    ground (arith, contains-to_reap n now timeout d h.1, eq_iff k n, h.0)

-- The entry that ReapIdle owes for one that stood.
abbrev pub after_reap : ℕ → ℕ → Option Process → Option Process
after_reap now timeout none = none
after_reap now timeout (some p) = if leb now (p.last_activity + timeout) then some p else none

-- In a table with one entry for each server, ReapIdle reports and removes exactly the processes whose
-- last activity is more than the timeout before now, and keeps the others as they were.
pub reap_idle_lem :
    (n : String) (now timeout : ℕ) (m : Manager)
    → Distinct m.procs
    → let (ns, r) = reap_idle now timeout m in
      (contains ns n ≡ is_quiet now timeout (lookup n m.procs))
      × (lookup n r.procs ≡ after_reap now timeout (lookup n m.procs))
unfolding reap_idle
reap_idle_lem n now timeout m h =
    let c = contains-to_reap n now timeout m.procs h in
    (c, ground (arith, c, lookup-stop_each n (to_reap now timeout m.procs) m))

contains-names : (n : String) (d : Dict Process) → lookup n d ≢ none → contains (names d) n ≡ true
unfolding lookup
contains-names n [] h = absurd (h refl)
contains-names n ((k, p) ∷ d) h = ground (arith, h, contains-names n d)

-- After StopAll no process is left.
pub lookup-stop_all : (n : String) (m : Manager) → lookup n (stop_all m).procs ≡ none
unfolding stop_all
lookup-stop_all n m = elim (Bool-cases (contains (names m.procs) n)) [
  | inl e ↦ ground (arith, e, lookup-stop_each n (names m.procs) m)
  | inr e ↦ ground (arith, e, lookup-stop_each n (names m.procs) m, contains-names n m.procs)
]
