-- ===== src/Profiles/Filter.antt =====
-- Filter with extractServerName and getToolPriority. `T` stands for mcp.Tool, `name_of` for its Name.
use fi_mcp_kit.Base.{
  ℕ, suc, String, Bool, false, Option, none, some, List, [], ◌∷◌, str_eq, contains, keep_if, length,
  take, ltb, if◌then◌else◌,
}
use fi_mcp_kit.Base.Dict.{Dict, lookup}
use fi_mcp_kit.Base.Int.{ℤ, pos, lt_int}
use fi_mcp_kit.Base.Run.{Run, returns, panics}
use fi_mcp_kit.Base.Text.{cut_name}
use fi_mcp_kit.Profiles.Types.{Profile, Profiles, get_profile}
use fi_mcp_kit.Profiles.Sort.{bubble_sort}

abbrev pub before_cut : Option (String × String) → String
before_cut none = ""
before_cut (some (server, base)) = server

unfoldable pub extract_server_name : String → String
extract_server_name n = before_cut (cut_name n)

abbrev pub priority_or : ℤ → Option ℤ → ℤ
priority_or d none = d
priority_or d (some p) = p

unfoldable pub base_priority : Option (String × String) → Dict ℤ → ℤ
base_priority none priorities = pos 0
base_priority (some (server, base)) priorities = priority_or (pos 0) (lookup base priorities)

unfoldable pub get_tool_priority : String → Dict ℤ → ℤ
unfolding base_priority
get_tool_priority n priorities =
    priority_or (base_priority (cut_name n) priorities) (lookup n priorities)

pub record FilterResult (T : Type 0) : Type 0 where
  pub tools : List T
  pub profile : String
  pub total_before : ℕ
  pub total_after : ℕ
  pub truncated : Bool

-- `len(profile.Include.Servers) == 1 && profile.Include.Servers[0] == "*"`
unfoldable pub is_everything : List String → Bool
is_everything (s ∷ []) = str_eq s "*"
is_everything _ = false

module _ {T : Type 0} (name_of : T → String) where
  -- The limit, the result's fields, for the tools that are left.
  unfoldable pub limit : ℤ → String → ℕ → List T → FilterResult T
  limit (pos (suc n)) profile before tools =
      let longer = ltb (suc n) (length tools) in
      let kept = if longer then take (suc n) tools else tools in
      record {
        tools = kept;
        profile = profile;
        total_before = before;
        total_after = length kept;
        truncated = longer;
      }
  limit _ profile before tools = record {
    tools = tools;
    profile = profile;
    total_before = before;
    total_after = length tools;
    truncated = false;
  }

  unfoldable pub sort_by_priority : Dict ℤ → List T → List T
  sort_by_priority priorities tools =
      bubble_sort lt_int (λ t. get_tool_priority (name_of t) priorities) tools

  unfoldable pub sort_if_any : Dict ℤ → List T → List T
  sort_if_any [] tools = tools
  sort_if_any (p ∷ ps) tools = sort_by_priority (p ∷ ps) tools

  unfoldable pub selected : Profile → List T → List T
  unfolding sort_if_any is_everything
  selected p tools =
      if is_everything p.include.servers
      then tools
      else sort_if_any p.priorities
          (keep_if (λ t. contains p.include.servers (extract_server_name (name_of t))) tools)

  unfoldable pub apply_profile : Profile → String → List T → FilterResult T
  unfolding limit selected
  apply_profile p profile tools = limit p.max_tools profile (length tools) (selected p tools)

  -- A profile that is nil is replaced by "full", which a custom file may have set to null.
  unfoldable pub filter_with :
      Option Profile → Option Profile → String → List T → Run (FilterResult T)
  unfolding apply_profile
  filter_with (some p) full profile tools = returns (apply_profile p profile tools)
  filter_with none (some p) profile tools = returns (apply_profile p "full" tools)
  filter_with none none profile tools = panics

  unfoldable pub filter : Profiles → List T → String → Run (FilterResult T)
  unfolding filter_with
  filter m tools profile = filter_with (get_profile m profile) (get_profile m "full") profile tools
