-- ===== src/Process/Tests.antt =====
-- Processes on the registry of Registry/Tests, and the theorems of the manager at them.
use fi_mcp_kit.Base.{ℕ, ◌≡◌, refl, true, false, none, some, [], ◌∷◌, contains}
use fi_mcp_kit.Base.Dict.{lookup, insert}
use fi_mcp_kit.Base.Run.{Run, returns}
use fi_mcp_kit.Registry.Spec.{find_server, get_server, spec_for, get_server_spec}
use fi_mcp_kit.Registry.Tests.{two_servers}
use fi_mcp_kit.Process.Manager.{
  Process, Manager, new_manager, launched, Started, started, adopt, launch, launch_with, spec_of,
  start_found, start, reap_idle,
}
use fi_mcp_kit.Process.ManagerLaws.{is_quiet, after_reap, reap_idle_lem}
use fi_mcp_kit.Process.Shutdown.{IsBounded, stop_process, stop_process-IsBounded}

-- Every command becomes transport 7, every client transport 8.
abbrev start_git : ℕ → Manager → Run (Started × Manager)
start_git now m = start (λ s. s) (λ v. "") [] (λ c. launched 7) (λ n spec. launched 8) "git" now m

abbrev git_process : Process
git_process = record {
  transport = 7;
  started_at = 5;
  last_activity = 5;
  has_cmd = true;
  has_ssh = false;
}

abbrev empty : Manager
empty = new_manager (some two_servers) "prod"

abbrev running_git : Manager
running_git = record empty { procs = ("git", git_process) ∷ [] }

starts : start_git 5 empty ≡ returns (started git_process, running_git)
unfolding new_manager start start_found launch_with spec_of launch adopt get_server_spec spec_for
    get_server find_server insert lookup
starts = refl

reap_idle_lem_example :
    (contains (reap_idle 100 50 running_git).0 "git"
      ≡ is_quiet 100 50 (lookup "git" running_git.procs))
    × (lookup "git" (reap_idle 100 50 running_git).1.procs
        ≡ after_reap 100 50 (lookup "git" running_git.procs))
unfolding lookup
reap_idle_lem_example = reap_idle_lem "git" 100 50 running_git (refl, tt)

stop_process-IsBounded_example :
    IsBounded 2000 1000 2000 none (some 300) (stop_process 2000 1000 2000 none (some 300) none)
stop_process-IsBounded_example = stop_process-IsBounded 2000 1000 2000 none (some 300) none
