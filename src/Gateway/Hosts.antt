-- ===== src/Gateway/Hosts.antt =====
-- The hosts of a Hub of pkg/gateway/hub.go, the gauge HostsConnected, and the calls that Handler makes
-- for a host. A connection is known by a number; closing it is recorded.
use fi_mcp_kit.Base.{
  ℕ, String, Bool, true, false, Option, none, some, List, [], ◌∷◌, ◌++◌, str_eq, if◌then◌else◌,
}
use fi_mcp_kit.Base.Dict.{Dict, lookup, insert, erase}
use fi_mcp_kit.Base.Int.{ℤ, pos, inc, dec}
use fi_mcp_kit.Base.Text.{trim_space}
use fi_mcp_kit.Registry.Types.{Registry, Server}

pub record Hub : Type 0 where
  -- The connection of each host.
  pub hosts : Dict ℕ
  pub registry : Option Registry
  pub hosts_connected : ℤ
  pub closed : List ℕ

unfoldable pub new_hub : Option Registry → Hub
new_hub reg = record { hosts = []; registry = reg; hosts_connected = pos 0; closed = [] }

-- `if old, ok := h.hosts[serverName]; ok { old.conn.Close() }`
abbrev pub close_old : Option ℕ → List ℕ → List ℕ
close_old none closed = closed
close_old (some old) closed = closed ++ (old ∷ [])

unfoldable pub register_host : String → ℕ → Hub → Hub
register_host n conn h = record h {
  hosts = insert n conn h.hosts;
  hosts_connected = inc h.hosts_connected;
  closed = close_old (lookup n h.hosts) h.closed;
}

unfoldable pub unregister_found : String → Option ℕ → Hub → Hub
unregister_found n none h = h
unregister_found n (some conn) h = record h {
  hosts = erase n h.hosts;
  hosts_connected = dec h.hosts_connected;
}

unfoldable pub unregister_host : String → Hub → Hub
unfolding unregister_found
unregister_host n h = unregister_found n (lookup n h.hosts) h

unfoldable pub get_host : String → Hub → Option ℕ
get_host n h = lookup n h.hosts

-- The function that Handler defers for a host: it unregisters by name, then closes its connection.
unfoldable pub host_leaves : String → ℕ → Hub → Hub
host_leaves n conn h = let g = unregister_host n h in record g { closed = g.closed ++ (conn ∷ []) }

abbrev pub is_some : Option ℕ → Bool
is_some none = false
is_some (some conn) = true

abbrev pub names_it : String → List (Option Server) → Bool
names_it n [] = false
names_it n (none ∷ rest) = names_it n rest
names_it n (some s ∷ rest) = if str_eq s.name n then true else names_it n rest

abbrev pub registry_names : String → Option Registry → Bool
registry_names n none = false
registry_names n (some reg) = names_it n reg.servers

unfoldable pub is_allowed_server : String → Hub → Bool
is_allowed_server n h = if is_some (lookup n h.hosts) then true else registry_names n h.registry

-- The keys of a set, with those of the servers whose names are not blank put in.
abbrev pub put_names : List (Option Server) → Dict ℕ → Dict ℕ
put_names [] set = set
put_names (none ∷ rest) set = put_names rest set
put_names (some s ∷ rest) set =
    put_names rest (if str_eq (trim_space s.name) "" then set else insert s.name 0 set)

abbrev pub with_registry_names : Option Registry → Dict ℕ → Dict ℕ
with_registry_names none set = set
with_registry_names (some reg) set = put_names reg.servers set

abbrev pub keys : Dict ℕ → List String
keys [] = []
keys ((k, v) ∷ rest) = k ∷ keys rest

-- In one of the orders that a map may be ranged over in.
unfoldable pub list_hosts : Hub → List String
list_hosts h = keys (with_registry_names h.registry h.hosts)
