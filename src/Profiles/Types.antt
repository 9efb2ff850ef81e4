-- ===== src/Profiles/Types.antt =====
-- Profiles, the manager that holds them, and the profiles built in.
use fi_mcp_kit.Base.{String, Option, none, some, List, [], ◌∷◌, map}
use fi_mcp_kit.Base.Dict.{Dict, lookup, insert}
use fi_mcp_kit.Base.Int.{ℤ, pos}

pub record IncludeSpec : Type 0 where
  pub servers : List String
  pub categories : List String
  pub tools : List String
  pub tags : List String

pub record Profile : Type 0 where
  pub name : String
  pub description : String
  pub include : IncludeSpec
  pub max_tools : ℤ
  pub priorities : Dict ℤ

-- The map of a Manager; a custom profile may be null.
abbrev pub Profiles : Type 0
Profiles = Dict (Option Profile)

abbrev pub includes : List String → List String → List String → IncludeSpec
includes servers categories tags = record {
  servers = servers;
  categories = categories;
  tools = [];
  tags = tags;
}

abbrev pub dev_profile : Profile
dev_profile = record {
  name = "dev";
  description = "Core development tools for coding workflows";
  include =
      includes ("mcp-git" ∷ "mcp-git-worktree" ∷ "mcp-github" ∷ "mcp-gitlab" ∷ [])
        ("version-control" ∷ "search" ∷ []) [];
  max_tools = pos 50;
  priorities =
      ("git_status", pos 10)
      ∷ ("git_diff", pos 9)
      ∷ ("git_log", pos 8)
      ∷ ("git_commit", pos 7)
      ∷ [];
}

abbrev pub k8s_ops_profile : Profile
k8s_ops_profile = record {
  name = "k8s-ops";
  description = "Kubernetes cluster management and debugging";
  include =
      includes ("mcp-k8s" ∷ "mcp-k8s-ops" ∷ "mcp-prometheus" ∷ "mcp-loki" ∷ "mcp-grafana" ∷ [])
        ("kubernetes" ∷ "monitoring" ∷ []) [];
  max_tools = pos 40;
  priorities = ("list_pods", pos 10) ∷ ("get_logs", pos 9) ∷ ("list_deployments", pos 8) ∷ [];
}

abbrev pub research_profile : Profile
research_profile = record {
  name = "research";
  description = "Web search and content extraction";
  include = includes ("mcp-tavily" ∷ "mcp-youtube" ∷ []) [] ("search" ∷ "web" ∷ "research" ∷ []);
  max_tools = pos 20;
  priorities = [];
}

abbrev pub infra_profile : Profile
infra_profile = record {
  name = "infra";
  description = "Infrastructure and cloud management";
  include =
      includes ("mcp-cloudflare" ∷ "mcp-k8s" ∷ "mcp-minio" ∷ "mcp-prometheus" ∷ "mcp-grafana" ∷ [])
        ("cloud" ∷ "monitoring" ∷ "storage" ∷ []) [];
  max_tools = pos 60;
  priorities = [];
}

abbrev pub full_profile : Profile
full_profile = record {
  name = "full";
  description = "All available tools with smart prioritization";
  include = includes ("*" ∷ []) [] [];
  max_tools = pos 500;
  priorities = [];
}

-- NewManager with loadDefaults.
unfoldable pub new_manager : Profiles
new_manager = insert "full" (some full_profile) (
    insert "infra" (some infra_profile) (
      insert "research" (some research_profile)
        (insert "k8s-ops" (some k8s_ops_profile) (insert "dev" (some dev_profile) []))))

-- The loop of LoadFromFile over the profiles of a decoded file.
unfoldable pub merge_custom : Profiles → Dict (Option Profile) → Profiles
merge_custom m [] = m
merge_custom m ((n, p) ∷ rest) = merge_custom (insert n p m) rest

-- m.profiles[name]: a missing name and a null profile both read as nil.
abbrev pub join : Option (Option Profile) → Option Profile
join none = none
join (some p) = p

unfoldable pub get_profile : Profiles → String → Option Profile
get_profile m n = join (lookup n m)

pub list_profiles : Profiles → List String
list_profiles m = map (λ (e : String × Option Profile). e.0) m
