-- ===== src/Secrets/Tests.antt =====
-- A manager of the environment and a store in memory, and the theorems of the manager at it.
use fi_mcp_kit.Base.{◌≡◌, refl, String, true, false, some, List, [], ◌∷◌, str_eq, if◌then◌else◌}
use fi_mcp_kit.Base.Dict.{Dict, lookup, insert, erase, lookup-insert_self}
use fi_mcp_kit.Base.Text.{has_suffix, has_prefix}
use fi_mcp_kit.Secrets.Store.{
  Backend, Manager, new_manager, first_writable, get, set, list, list_from, add_keys, done,
}
use fi_mcp_kit.Secrets.EnvBackend.{env_backend, env_names, split_equals}
use fi_mcp_kit.Secrets.StoreLaws.{IsLawful, get-set}

-- The world is the store; the environment is fixed.
abbrev environment : Backend (Dict String)
environment =
    env_backend (λ w n. if str_eq n "API_KEY" then "abc" else "")
      (λ w. "API_KEY=abc" ∷ "HOME=/root" ∷ [])

abbrev keys : Dict String → List String
keys [] = []
keys ((k, v) ∷ d) = k ∷ keys d

abbrev memory : Backend (Dict String)
memory = record {
  name = "memory";
  read_only = false;
  get = lookup;
  list = λ d. some (keys d);
  set = λ k v d. (true, insert k v d);
  delete = λ k d. (true, erase k d);
}

abbrev both : Manager (Dict String)
both = new_manager (environment ∷ memory ∷ [])

memory-IsLawful : IsLawful memory
memory-IsLawful k v d h = lookup-insert_self k v d

lists : list both (("DB_KEY", "x") ∷ ("API_KEY", "y") ∷ []) ≡ "API_KEY" ∷ "DB_KEY" ∷ []
unfolding new_manager list list_from add_keys env_backend env_names split_equals has_prefix
    has_suffix
lists = refl

writes : set "DB_KEY" "x" both [] ≡ (done, ("DB_KEY", "x") ∷ [])
unfolding new_manager first_writable set env_backend insert
writes = refl

get-set_example : get "DB_KEY" both (("DB_KEY", "x") ∷ []) ≡ some ("x", "memory")
unfolding env_backend
get-set_example =
    get-set (environment ∷ []) [] memory "DB_KEY" "x" [] (refl, tt) refl memory-IsLawful refl writes
      (refl, tt)
