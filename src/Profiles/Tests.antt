-- ===== src/Profiles/Tests.antt =====
-- Runs of the filter on tools that are their names, and its theorems at them.
use fi_mcp_kit.Base.{◌≡◌, refl, keep_if, count_if, Bool, String, false, List, [], ◌∷◌}
use fi_mcp_kit.Base.Dict.{insert, lookup}
use fi_mcp_kit.Base.Int.{ℤ, lt_int}
use fi_mcp_kit.Base.Run.{returns}
use fi_mcp_kit.Base.Text.{cut_name, has_prefix, drop_first}
use fi_mcp_kit.Registry.Query.{namespaced}
use fi_mcp_kit.Profiles.Types.{full_profile, dev_profile, new_manager, get_profile}
use fi_mcp_kit.Profiles.Sort.{bubble_sort, passes, pass}
use fi_mcp_kit.Profiles.Filter.{
  extract_server_name, filter, filter_with, apply_profile, limit, selected, is_everything,
  sort_if_any, sort_by_priority, get_tool_priority, base_priority,
}
use fi_mcp_kit.Profiles.FilterLaws.{
  Serves, serving, priority_of, filter-Serves, sort_by_priority_lem,
}
use fi_mcp_kit.Profiles.SortLaws.{Descending, tied}
use fi_mcp_kit.Profiles.NameLaws.{extract_server_name-namespaced}

abbrev names : List String
names = "mcp-git__git_log" ∷ "mcp-loki__query" ∷ "mcp-git__git_status" ∷ []

dev_tools :
    filter (λ n. n) new_manager names "dev"
    ≡ returns (record {
      tools = "mcp-git__git_status" ∷ "mcp-git__git_log" ∷ [];
      profile = "dev";
      total_before = 3;
      total_after = 2;
      truncated = false;
    })
unfolding filter filter_with apply_profile limit selected is_everything sort_if_any sort_by_priority
    get_tool_priority base_priority bubble_sort passes pass new_manager get_profile insert lookup
    extract_server_name cut_name has_prefix drop_first
dev_tools = refl

filter-Serves_example :
    Serves
      (λ n. n)
      (serving (λ n. n) (get_profile new_manager "dev") full_profile)
      names
      (filter (λ n. n) new_manager names "dev")
unfolding get_profile new_manager insert lookup
filter-Serves_example = filter-Serves (λ n. n) new_manager full_profile names "dev" refl

extract_server_name-namespaced_example :
    extract_server_name (namespaced "mcp-git" "git_status") ≡ "mcp-git"
unfolding cut_name has_prefix
extract_server_name-namespaced_example = extract_server_name-namespaced "mcp-git" "git_status" refl

abbrev git_priority : String → ℤ
git_priority = priority_of (λ n. n) dev_profile.priorities

sort_by_priority_lem_example :
    Descending lt_int git_priority (sort_by_priority (λ n. n) dev_profile.priorities names)
    × ((k : ℤ)
        → keep_if
            (tied lt_int git_priority k)
            (sort_by_priority (λ n. n) dev_profile.priorities names)
          ≡ keep_if (tied lt_int git_priority k) names)
    × ((p : String → Bool)
        → count_if p (sort_by_priority (λ n. n) dev_profile.priorities names) ≡ count_if p names)
sort_by_priority_lem_example = sort_by_priority_lem (λ n. n) dev_profile.priorities names
