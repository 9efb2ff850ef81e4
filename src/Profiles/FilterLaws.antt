-- ===== src/Profiles/FilterLaws.antt =====
-- What Filter leaves of the tools, and how a namespaced tool name is read back.
use fi_mcp_kit.Base.{
  ℕ, suc, ◌≤◌, ◌≡◌, ◌∙◌, refl, sym, ap, subst, String, Bool, true, false, ◌&&◌, Option, none, some,
  List, [], ◌∷◌, ◌++◌, arith, contains, keep_if, count_if, length, if◌then◌else◌,
}
use fi_mcp_kit.Base.Dict.{Dict}
use fi_mcp_kit.Base.Int.{ℤ, pos, lt_int, lt_int_irrefl, lt_int_asym, lt_int_trans}
use fi_mcp_kit.Base.Run.{Run, returns, panics}
use fi_mcp_kit.Profiles.Types.{Profile, Profiles, get_profile}
use fi_mcp_kit.Profiles.SortLaws.{StrictOrder, Descending, tied, bubble_sort_lem}
use fi_mcp_kit.Profiles.LimitLaws.{limit-Limited}
use fi_mcp_kit.Profiles.Filter.{
  extract_server_name, get_tool_priority, FilterResult, is_everything, sort_by_priority,
  sort_if_any, selected, apply_profile, filter_with, filter,
}

lt_int-StrictOrder : StrictOrder lt_int
lt_int-StrictOrder = record {
  lt_irrefl = lt_int_irrefl;
  not_lt_trans = lt_int_trans;
  lt_asym = lt_int_asym;
}

module _ {T : Type 0} (name_of : T → String) where
  abbrev pub priority_of : Dict ℤ → T → ℤ
  priority_of priorities t = get_tool_priority (name_of t) priorities

  -- sortByPriority puts the tools into descending order of priority, keeps the order of those of one
  -- priority, and every tool as often as it was there.
  pub sort_by_priority_lem :
      (priorities : Dict ℤ) (l : List T)
      → Descending lt_int (priority_of priorities) (sort_by_priority name_of priorities l)
        × ((k : ℤ)
            → keep_if
                (tied lt_int (priority_of priorities) k)
                (sort_by_priority name_of priorities l)
              ≡ keep_if (tied lt_int (priority_of priorities) k) l)
        × ((p : T → Bool) → count_if p (sort_by_priority name_of priorities l) ≡ count_if p l)
  unfolding sort_by_priority
  sort_by_priority_lem priorities l =
      bubble_sort_lem lt_int lt_int-StrictOrder (priority_of priorities) l

  -- The profile lists the tool's server, or lists just the star. Its categories, tools and tags are not
  -- asked.
  abbrev pub lists_server : Profile → T → Bool
  lists_server p t =
      if is_everything p.include.servers
      then true
      else contains p.include.servers (extract_server_name (name_of t))

  -- Priorities order the tools of a profile that has some and does not list just the star.
  abbrev pub is_ordered : Profile → Bool
  is_ordered p =
      if is_everything p.include.servers
      then false
      else (elim p.priorities [ [] ↦ false | _ ↦ true ])

  -- What Filter owes: with the tools that it dropped, the result is the tools of the servers that the profile lists, each as often
  -- as before, the best first where priorities order them; it drops nothing unless it says so, and
  -- then it keeps as many as the limit.
  pub record Filtered (p : Profile) (l : List T) (r : FilterResult T) : Type 0 where
    dropped : List T
    same :
        (q : T → Bool) → count_if q (r.tools ++ dropped) ≡ count_if (λ t. lists_server p t && q t) l
    best_first :
        is_ordered p ≡ true → Descending lt_int (priority_of p.priorities) (r.tools ++ dropped)
    size : r.total_after ≡ length r.tools
    before : r.total_before ≡ length l
    whole : r.truncated ≡ false → dropped ≡ []
    cut : r.truncated ≡ true → p.max_tools ≡ pos (length r.tools)
    within : (n : ℕ) → p.max_tools ≡ pos (suc n) → length r.tools ≤ suc n

  count_if-keep_if :
      (a q : T → Bool) (l : List T) → count_if q (keep_if a l) ≡ count_if (λ t. a t && q t) l
  count_if-keep_if a q [] = refl
  count_if-keep_if a q (t ∷ l) = ground (arith, count_if-keep_if a q l)

  count_if-sort_if_any :
      (priorities : Dict ℤ) (q : T → Bool) (l : List T)
      → count_if q (sort_if_any name_of priorities l) ≡ count_if q l
  unfolding sort_if_any
  count_if-sort_if_any [] q l = refl
  count_if-sort_if_any (e ∷ es) q l = (sort_by_priority_lem (e ∷ es) l).2 q

  -- The selection of a profile, by the test that decides its kind.
  abbrev chosen : Bool → Profile → List T → List T
  chosen everything p tools =
      if everything
      then tools
      else sort_if_any name_of p.priorities
          (keep_if (λ t. contains p.include.servers (extract_server_name (name_of t))) tools)

  count_if-chosen :
      (everything : Bool) (p : Profile) (q : T → Bool) (l : List T)
      → count_if q (chosen everything p l)
        ≡ count_if
            (λ t.
              (if everything
                then true
                else contains p.include.servers (extract_server_name (name_of t)))
              && q t)
            l
  count_if-chosen true p q l = refl
  count_if-chosen false p q l =
      count_if-sort_if_any p.priorities q
        (keep_if (λ t. contains p.include.servers (extract_server_name (name_of t))) l)
      ∙ count_if-keep_if (λ t. contains p.include.servers (extract_server_name (name_of t))) q l

  sort_if_any-Descending :
      (priorities : Dict ℤ) (l : List T)
      → (elim priorities [ [] ↦ false | _ ↦ true ]) ≡ true
      → Descending lt_int (priority_of priorities) (sort_if_any name_of priorities l)
  unfolding sort_if_any
  sort_if_any-Descending [] l h = cc
  sort_if_any-Descending (e ∷ es) l h = (sort_by_priority_lem (e ∷ es) l).0

  chosen-Descending :
      (everything : Bool) (p : Profile) (l : List T)
      → (if everything then false else (elim p.priorities [ [] ↦ false | _ ↦ true ])) ≡ true
      → Descending lt_int (priority_of p.priorities) (chosen everything p l)
  chosen-Descending true p l h = cc
  chosen-Descending false p l h = sort_if_any-Descending p.priorities _ h

  pub apply_profile-Filtered :
      (p : Profile) (profile : String) (l : List T)
      → Filtered p l (apply_profile name_of p profile l)
  unfolding apply_profile selected
  apply_profile-Filtered p profile l =
      let m = limit-Limited name_of p.max_tools profile (length l) (selected name_of p l) in
      record {
        dropped = m.gone;
        same = λ q. ap (count_if q) m.all ∙ count_if-chosen (is_everything p.include.servers) p q l;
        best_first = λ e.
            subst (Descending lt_int (priority_of p.priorities)) (sym m.all)
              (chosen-Descending (is_everything p.include.servers) p l e);
        size = m.count;
        before = m.total;
        whole = m.nothing;
        cut = m.exact;
        within = m.bound;
      }

  -- The profile asked for, or else the full one.
  abbrev pub serving : Option Profile → Profile → Profile
  serving none full = full
  serving (some p) full = p

  abbrev pub Serves : Profile → List T → Run (FilterResult T) → Type 0
  Serves p l (returns r) = Filtered p l r
  Serves p l panics = ⊥

  filter_with-Serves :
      (o : Option Profile) (full : Profile) (profile : String) (l : List T)
      → Serves (serving o full) l (filter_with name_of o (some full) profile l)
  unfolding filter_with
  filter_with-Serves none full profile l = apply_profile-Filtered full "full" l
  filter_with-Serves (some p) full profile l = apply_profile-Filtered p profile l

  -- Where the profile "full" is not null, Filter returns, and by the profile asked for or else by
  -- "full": with some dropped tools, its result is the tools of the servers that the profile lists, or
  -- all where it lists just the star, whatever its categories, tools and tags are, each as often as it
  -- was there, in descending order of priority where the profile has priorities and does not list just
  -- the star; it drops nothing unless it reports a truncation, and then it has as many tools
  -- as the limit; it never has more than a positive limit.
  pub filter-Serves :
      (m : Profiles) (full : Profile) (l : List T) (profile : String)
      → get_profile m "full" ≡ some full
      → Serves (serving (get_profile m profile) full) l (filter name_of m l profile)
  unfolding filter
  filter-Serves m full l profile e =
      rw e (filter_with-Serves (get_profile m profile) full profile l)
