-- ===== src/Router/Types.antt =====
-- The router's state, New, SetRegistry, HubEnabled and the recording of successes and failures.
use fi_mcp_kit.Base.{ℕ, zero, suc, String, Bool, Option, none, some, List, [], ◌∷◌}
use fi_mcp_kit.Base.Dict.{Dict, lookup, insert}
use fi_mcp_kit.Base.Int.{ℤ, pos, negsuc}
use fi_mcp_kit.Base.Run.{Run, returns, panics}
use fi_mcp_kit.Registry.Types.{Registry, Server}
use fi_mcp_kit.Router.Health.{Health, Limits, zero_health, new_health, succeed, fail}
use fi_mcp_kit.Router.Index.{ToolIndex, add_tool_to_index, index_of, append_servers}

pub data Target : Type 0 where
  local hub unavailable : Target

pub record RouteDecision : Type 0 where
  pub target : Target
  pub server_name : String
  pub reason : String

pub record Config : Type 0 where
  pub registry : Option Registry
  pub hub_enabled : Bool
  pub hub_url : String
  pub failure_threshold : ℤ
  pub recovery_time : ℤ

pub record Router (A : Type 0) : Type 0 where
  pub registry : Option Registry
  pub local_health : Dict (Health A)
  pub hub_health : Dict (Health A)
  pub hub_enabled : Bool
  pub hub_url : String
  pub limits : Limits
  pub tool_index : ToolIndex

-- Target.String
pub target_name : Target → String
target_name local = "local"
target_name hub = "hub"
target_name unavailable = "unavailable"

unfoldable pub or_default : ℕ → ℤ → ℕ
or_default d (pos zero) = d
or_default d (pos (suc n)) = suc n
or_default d (negsuc n) = d

module _ {A : Type 0} (z : A) where
  -- `for _, srv := range cfg.Registry.Servers { health[srv.Name] = &Health{Healthy: true} }`
  unfoldable pub all_healthy : List (Option Server) → Dict (Health A) → Run (Dict (Health A))
  all_healthy [] m = returns m
  all_healthy (none ∷ rest) m = panics
  all_healthy (some s ∷ rest) m = all_healthy rest (insert s.name (new_health z) m)

  unfoldable pub bare : Config → Router A
  bare cfg = record {
    registry = cfg.registry;
    local_health = [];
    hub_health = [];
    hub_enabled = cfg.hub_enabled;
    hub_url = cfg.hub_url;
    limits = record {
      failure_threshold = or_default 3 cfg.failure_threshold;
      recovery_time = or_default 30_000_000_000 cfg.recovery_time;
    };
    tool_index = [];
  }

  unfoldable pub new_with : Config → Option Registry → Run (Router A)
  unfolding bare
  new_with cfg none = returns (bare cfg)
  new_with cfg (some reg) = elim (all_healthy reg.servers []) [
    | returns m ↦
        returns (record (bare cfg) { local_health = m; hub_health = m; tool_index = index_of reg })
    | panics ↦ panics
  ]

  unfoldable pub new : Config → Run (Router A)
  unfolding new_with bare or_default
  new cfg = new_with cfg cfg.registry

module _ {A : Type 0} where
  unfoldable pub set_registry : Option Registry → Router A → Run (Router A)
  set_registry none r = returns (record r { registry = none; tool_index = [] })
  set_registry (some reg) r = elim (append_servers reg.servers []) [
    | returns i ↦ returns (record r { registry = some reg; tool_index = i })
    | panics ↦ panics
  ]

  unfoldable pub build_index_for : Option Registry → Router A → Router A
  build_index_for none r = r
  build_index_for (some reg) r = record r { tool_index = index_of reg }

  -- BuildToolIndex and AddToolToIndex.
  unfoldable pub build_tool_index : Router A → Router A
  unfolding build_index_for
  build_tool_index r = build_index_for r.registry r

  unfoldable pub add_tool : String → String → Router A → Router A
  add_tool tool server r = record r { tool_index = add_tool_to_index tool server r.tool_index }

module _ {A : Type 0} (z : A) (is_zero : A → Bool) (blend : A → A → A) where
  -- A missing entry is made anew.
  abbrev pub entry : String → Dict (Health A) → Health A
  entry n m = elim (lookup n m) [ none ↦ zero_health z | some h ↦ h ]

  unfoldable pub record_success : String → Target → A → ℕ → Router A → Router A
  record_success n local latency now r = record r {
    local_health =
        insert n (succeed is_zero blend now latency (entry n r.local_health)) r.local_health;
  }
  record_success n hub latency now r = record r {
    hub_health = insert n (succeed is_zero blend now latency (entry n r.hub_health)) r.hub_health;
  }
  record_success n unavailable latency now r = r

  unfoldable pub record_failure : String → Target → String → ℕ → Router A → Router A
  record_failure n local message now r = record r {
    local_health = insert n (fail r.limits now message (entry n r.local_health)) r.local_health;
  }
  record_failure n hub message now r = record r {
    hub_health = insert n (fail r.limits now message (entry n r.hub_health)) r.hub_health;
  }
  record_failure n unavailable message now r = r

-- GetHealth, and GetAllHealth with the hub's side looked up for every local entry.
unfoldable pub get_health : {A : Type 0} → String → Router A → Option (Health A) × Option (Health A)
get_health n r = (lookup n r.local_health, lookup n r.hub_health)

abbrev pub sides :
    {A : Type 0} → Dict (Health A) → Dict (Health A) → Dict (Option (Health A) × Option (Health A))
sides [] hubs = []
sides ((n, h) ∷ rest) hubs = (n, (some h, lookup n hubs)) ∷ sides rest hubs

unfoldable pub get_all_health :
    {A : Type 0} → Router A → Dict (Option (Health A) × Option (Health A))
get_all_health r = sides r.local_health r.hub_health
