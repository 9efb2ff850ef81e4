-- ===== src/Registry/StripLaws.antt =====
-- What a registry keeps when it changes in Env maps only.
use fi_mcp_kit.Base.{
  ◌≡◌, ◌≢◌, refl, sym, ◌∙◌, ap, subst, String, Option, none, some, List, [], ◌∷◌, arith,
}
use fi_mcp_kit.Base.Run.{Run, returns, panics}
use fi_mcp_kit.Registry.Types.{Registry, Server, TargetSpec}
use fi_mcp_kit.Registry.Spec.{
  find_server, get_server, merge_spec, common_spec, target_entry, merged, spec_for, get_server_spec,
}
use fi_mcp_kit.Registry.SpecLaws.{
  strip_spec, strip_servers, strip, NoNullEntry, Answers, strip-get_server_spec,
}

abbrev pub strip_found : Option Server → Option Server
strip_found none = none
strip_found (some s) = some (record s { common = strip_spec s.common })

find_server-strip_servers :
    (n : String) (l : List (Option Server))
    → find_server n (strip_servers l) ≡ strip_found (find_server n l)
unfolding find_server
find_server-strip_servers n [] = refl
find_server-strip_servers n (none ∷ rest) = find_server-strip_servers n rest
find_server-strip_servers n (some s ∷ rest) = ground (arith, find_server-strip_servers n rest)

pub same_found :
    (n : String) (r r' : Registry)
    → strip r' ≡ strip r
    → strip_found (get_server r' n) ≡ strip_found (get_server r n)
unfolding get_server
same_found n r r' e =
    sym (find_server-strip_servers n r'.servers)
    ∙ ap (λ q. find_server n q.servers) e
    ∙ find_server-strip_servers n r.servers

keep :
    (profile : String) (o : Option Server)
    → NoNullEntry profile o
    → NoNullEntry profile (strip_found o)
keep profile none h = tt
keep profile (some s) h = h

give :
    (profile : String) (o : Option Server)
    → NoNullEntry profile (strip_found o)
    → NoNullEntry profile o
give profile none h = tt
give profile (some s) h = h

pub same-NoNullEntry :
    (target n : String) (r r' : Registry)
    → strip r' ≡ strip r
    → NoNullEntry target (get_server r n)
    → NoNullEntry target (get_server r' n)
same-NoNullEntry target n r r' e h =
    give target (get_server r' n)
      (subst (NoNullEntry target) (sym (same_found n r r' e)) (keep target (get_server r n) h))

-- What GetServerSpec returns where it does not panic.
abbrev pub effective_with : TargetSpec → Option (Option TargetSpec) → TargetSpec
effective_with common (some (some src)) = merge_spec common src
effective_with common _ = common

abbrev pub effective : String → Option Server → Option TargetSpec
effective target none = none
effective target (some s) = some (effective_with (common_spec s) (target_entry s target))

-- An action returns this value, and changes the registry in Env maps only.
abbrev pub Returns : {A : Type 0} → A → Registry → Run (A × Registry) → Type 0
Returns a r x = (r' : Registry) × (x ≡ returns (a, r')) × (strip r' ≡ strip r)

pub Answers-Returns :
    {A : Type 0} (a : A) (r : Registry) (x : Run (A × Registry)) → Answers a r x → Returns a r x
Answers-Returns a r (returns (b, r')) h = (r', ap (λ c. returns (c, r')) h.0, h.1)
Answers-Returns a r panics h = absurd h

found_spec :
    (n target : String) (o : Option Server) (r : Registry)
    → NoNullEntry target o
    → (r' : Registry) × (spec_for n target o r ≡ returns (effective target o, r'))
unfolding spec_for
found_spec n target none r h = (r, refl)
found_spec n target (some s) r h = go (target_entry s target) h
  where
    go :
        (t : Option (Option TargetSpec))
        → t ≢ some none
        → (r' : Registry) × (merged n (common_spec s) t r
            ≡ returns (some (effective_with (common_spec s) t), r'))
    go none g = (r, refl)
    go (some none) g = absurd (g refl)
    go (some (some src)) g = (_, refl)

pub get_server_spec-Returns :
    (n target : String) (r : Registry)
    → NoNullEntry target (get_server r n)
    → Returns (effective target (get_server r n)) r (get_server_spec n target r)
unfolding get_server_spec
get_server_spec-Returns n target r h =
    let (r', e) = found_spec n target (get_server r n) r h in
    (r', e, strip-get_server_spec n target r e)
