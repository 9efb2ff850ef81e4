-- ===== src/Process/Manager.antt =====
-- The process manager of pkg/process/manager.go. `exec` and `dial_ssh` are what the operating system and
-- the SSH library make of a command: a transport, known by a number, or an error.
use fi_mcp_kit.Base.{
  ℕ, ◌+◌, String, Bool, true, false, ◌||◌, Option, none, some, List, [], ◌∷◌, ◌++◌, str_eq, map,
  length, ltb, if◌then◌else◌,
}
use fi_mcp_kit.Base.Dict.{Dict, lookup, insert, erase}
use fi_mcp_kit.Base.Run.{Run, returns, panics}
use fi_mcp_kit.Base.Value.{Value}
use fi_mcp_kit.Registry.Types.{Registry, TargetSpec, SshSpec}
use fi_mcp_kit.Registry.Spec.{get_server_spec}

pub record Process : Type 0 where
  pub transport : ℕ
  pub started_at : ℕ
  pub last_activity : ℕ
  -- proc.Cmd with its Process, and proc.sshClient, are set.
  pub has_cmd : Bool
  pub has_ssh : Bool

pub record Manager : Type 0 where
  pub registry : Option Registry
  pub target : String
  pub procs : Dict Process
  -- The transports closed, the newest first.
  pub closed : List ℕ

unfoldable pub new_manager : Option Registry → String → Manager
new_manager reg target = record { registry = reg; target = target; procs = []; closed = [] }

unfoldable pub set_registry : Option Registry → Manager → Manager
set_registry reg m = record m { registry = reg }

pub data StartError : Type 0 where
  server_not_found no_command ssh_failed stdin_failed stdout_failed exec_failed : StartError

-- What a command or a client becomes.
pub data Launch : Type 0 where
  launched : ℕ → Launch
  not_launched : StartError → Launch

pub data Started : Type 0 where
  started : Process → Started
  failed : StartError → Started

pub record Command : Type 0 where
  pub program : String
  pub args : List String
  pub env : List (String × String)

abbrev pub env_of : Option (Dict String) → Dict String
env_of none = []
env_of (some env) = env

abbrev pub ssh_host : Option SshSpec → String
ssh_host none = ""
ssh_host (some ssh) = ssh.host

-- `sprint` is fmt.Sprint of an argument, `environ` os.Environ.
module _ (expand : String → String) (sprint : Value → String) (environ : List (String × String))
    (exec : Command → Launch) (dial_ssh : String → TargetSpec → Launch) where
  unfoldable pub command_of : TargetSpec → Command
  command_of spec = record {
    program = expand spec.command;
    args = map (λ (a : Value). expand (sprint a)) spec.args;
    env = environ ++ map (λ (e : String × String). (e.0, expand e.1)) (env_of spec.env);
  }

  unfoldable pub adopt : String → ℕ → Bool → Launch → Manager → Started × Manager
  adopt n now ssh (not_launched e) m = (failed e, m)
  adopt n now ssh (launched transport) m =
      let p : Process = record {
        transport = transport;
        started_at = now;
        last_activity = now;
        has_cmd = if ssh then false else true;
        has_ssh = ssh;
      } in
      (started p, record m { procs = insert n p m.procs })

  unfoldable pub launch : String → ℕ → Option TargetSpec → Manager → Started × Manager
  unfolding adopt
  launch n now none m = (failed server_not_found, m)
  launch n now (some spec) m =
      if str_eq spec.command ""
      then (failed no_command, m)
      else if str_eq (ssh_host spec.ssh) ""
      then adopt n now false (exec (command_of spec)) m
      else adopt n now true (dial_ssh n spec) m

  unfoldable pub launch_with :
      String → ℕ → Run (Option TargetSpec × Registry) → Manager → Run (Started × Manager)
  launch_with n now panics m = panics
  launch_with n now (returns (spec, reg)) m =
      returns (launch n now spec (record m { registry = some reg }))

  unfoldable pub spec_of : String → String → Option Registry → Run (Option TargetSpec × Registry)
  spec_of n target none = panics
  spec_of n target (some reg) = get_server_spec n target reg

  abbrev pub fresh_start : String → ℕ → Manager → Run (Started × Manager)
  fresh_start n now m = launch_with n now (spec_of n m.target m.registry) m

  unfoldable pub start_found : String → ℕ → Option Process → Manager → Run (Started × Manager)
  start_found n now none m = fresh_start n now m
  start_found n now (some p) m =
      if p.has_cmd || p.has_ssh
      then (let q = record p { last_activity = now } in
          returns (started q, record m { procs = insert n q m.procs }))
      else fresh_start n now m

  unfoldable pub start : String → ℕ → Manager → Run (Started × Manager)
  unfolding start_found
  start n now m = start_found n now (lookup n m.procs) m

-- Dial's result: the transport of the process.
abbrev pub transport_of : Run (Started × Manager) → Option ℕ
transport_of (returns (started p, m)) = some p.transport
transport_of (returns (failed e, m)) = none
transport_of panics = none

unfoldable pub stop_found : String → Option Process → Manager → Manager
stop_found n none m = m
stop_found n (some p) m = record m { procs = erase n m.procs; closed = p.transport ∷ m.closed }

unfoldable pub stop : String → Manager → Manager
unfolding stop_found
stop n m = stop_found n (lookup n m.procs) m

-- The loops of StopAll and ReapIdle over names.
unfoldable pub stop_each : List String → Manager → Manager
unfolding stop
stop_each [] m = m
stop_each (n ∷ ns) m = stop_each ns (stop n m)

abbrev pub names : Dict Process → List String
names [] = []
names ((n, p) ∷ rest) = n ∷ names rest

unfoldable pub stop_all : Manager → Manager
unfolding stop_each
stop_all m = stop_each (names m.procs) m

abbrev pub is_idle : ℕ → ℕ → Process → Bool
is_idle now timeout p = ltb (p.last_activity + timeout) now

abbrev pub to_reap : ℕ → ℕ → Dict Process → List String
to_reap now timeout [] = []
to_reap now timeout ((n, p) ∷ rest) =
    if is_idle now timeout p then n ∷ to_reap now timeout rest else to_reap now timeout rest

unfoldable pub reap_idle : ℕ → ℕ → Manager → List String × Manager
unfolding stop_each
reap_idle now timeout m = let ns = to_reap now timeout m.procs in (ns, stop_each ns m)

unfoldable pub mark_found : String → ℕ → Option Process → Manager → Manager
mark_found n now none m = m
mark_found n now (some p) m = record m {
  procs = insert n (record p { last_activity = now }) m.procs;
}

unfoldable pub mark_activity : String → ℕ → Manager → Manager
unfolding mark_found
mark_activity n now m = mark_found n now (lookup n m.procs) m

unfoldable pub get_process : String → Manager → Option Process
get_process n m = lookup n m.procs

pub count_processes : Manager → ℕ
count_processes m = length m.procs
