-- ===== src/Registry/SpecLaws.antt =====
-- What GetServerSpec returns, what it leaves of the registry, and what the allowlist test answers.
use fi_mcp_kit.Base.{
  ◌≡◌, ◌≢◌, ◌↔◌, inl, inr, refl, ap, String, Bool, false, ◌||◌, Option, none, some, List, [], ◌∷◌,
  arith, eq_iff, contains, Bool-cases,
}
use fi_mcp_kit.Base.Dict.{Dict, Distinct, lookup, insert, lookup-insert}
use fi_mcp_kit.Base.Run.{Run, returns, panics, ◌>>=◌, pure}
use fi_mcp_kit.Registry.Types.{Registry, Server, TargetSpec}
use fi_mcp_kit.Registry.Spec.{
  find_server, get_server, over_list, write_all, merge_env, merge_spec, share_env, write_back,
  common_spec, target_entry, merged, spec_for, get_server_spec, spec_allows, allowed_for,
  is_tool_always_allowed,
}

-- The value that stands when one map is written over another.
abbrev pub over {ℓ} : {A : Type ℓ} → Option A → Option A → Option A
over base none = base
over base (some v) = some v

pub lookup-write_all :
    (k : String) (dst src : Dict String)
    → Distinct src
    → lookup k (write_all dst src) ≡ over (lookup k dst) (lookup k src)
unfolding write_all lookup
lookup-write_all k dst [] d = refl
lookup-write_all k dst ((j, v) ∷ src) d =
    ground
      (arith, lookup-write_all k (insert j v dst) src d.1, lookup-insert j k v dst, eq_iff j k, d.0)

pub find_server-write_back :
    (n : String) (env : Option (Dict String)) (l : List (Option Server)) {s : Server}
    → find_server n l ≡ some s
    → find_server n (write_back n env l) ≡ some (record s { common = share_env env s.common })
unfolding find_server write_back
find_server-write_back n env [] e = cc
find_server-write_back n env (none ∷ rest) e = find_server-write_back n env rest e
find_server-write_back n env (some x ∷ rest) {s} e =
    ground (arith, find_server-write_back n env rest {s = s})

-- The registry without the Env maps of its common specs.
abbrev pub strip_spec : Option TargetSpec → Option TargetSpec
strip_spec none = none
strip_spec (some c) = some (record c { env = none })

abbrev pub strip_servers : List (Option Server) → List (Option Server)
strip_servers [] = []
strip_servers (none ∷ rest) = none ∷ strip_servers rest
strip_servers (some s ∷ rest) =
    some (record s { common = strip_spec s.common }) ∷ strip_servers rest

abbrev pub strip : Registry → Registry
strip r = record r { servers = strip_servers r.servers }

strip_spec-share_env :
    (env : Option (Dict String)) (c : Option TargetSpec)
    → strip_spec (share_env env c) ≡ strip_spec c
strip_spec-share_env env c = ground arith

strip_servers-write_back :
    (n : String) (env : Option (Dict String)) (l : List (Option Server))
    → strip_servers (write_back n env l) ≡ strip_servers l
unfolding write_back
strip_servers-write_back n env [] = refl
strip_servers-write_back n env (none ∷ rest) = ap (◌∷◌ none) (strip_servers-write_back n env rest)
strip_servers-write_back n env (some s ∷ rest) =
    ground (arith, strip_servers-write_back n env rest, strip_spec-share_env env s.common)

strip-merged :
    (n : String) (spec : TargetSpec) (t : Option (Option TargetSpec)) (r : Registry)
    {o : Option TargetSpec} {r' : Registry}
    → merged n spec t r ≡ returns (o, r')
    → strip r' ≡ strip r
strip-merged n spec none r h = ground (arith, h)
strip-merged n spec (some none) r h = cc
strip-merged n spec (some (some src)) r h =
    ground (arith, h, strip_servers-write_back n (merge_spec spec src).env r.servers)

strip-spec_for :
    (n target : String) (s : Option Server) (r : Registry) {o : Option TargetSpec} {r' : Registry}
    → spec_for n target s r ≡ returns (o, r')
    → strip r' ≡ strip r
unfolding spec_for
strip-spec_for n target none r h = ground (arith, h)
strip-spec_for n target (some s) r h = strip-merged n (common_spec s) (target_entry s target) r h

-- A call of GetServerSpec that returns changes the registry at most in Env maps of common specs.
pub strip-get_server_spec :
    (n target : String) (r : Registry) {o : Option TargetSpec} {r' : Registry}
    → get_server_spec n target r ≡ returns (o, r')
    → strip r' ≡ strip r
unfolding get_server_spec
strip-get_server_spec n target r h = strip-spec_for n target (get_server r n) r h

spec_for-panics :
    (n target : String) (o : Option Server) (r : Registry)
    → spec_for n target o r ≡ panics
    → (s : Server) × (o ≡ some s) × (target_entry s target ≡ some none)
unfolding spec_for
spec_for-panics n target none r h = cc
spec_for-panics n target (some s) r h = (s, refl, ground arith)

-- GetServerSpec dereferences a nil pointer exactly if the server is found and has an entry for the
-- target that is null.
pub get_server_spec-eq-panics :
    (n target : String) (r : Registry)
    → (get_server_spec n target r ≡ panics)
      ↔ ((s : Server) × (get_server r n ≡ some s) × (target_entry s target ≡ some none))
unfolding get_server_spec
get_server_spec-eq-panics n target r =
    (spec_for-panics n target (get_server r n) r, λ h. ground (arith, h.1, h.2))

-- What a server declares for a target, read off the registry: no action, no copy.
abbrev pub own_entry : Option (Option TargetSpec) → List String
own_entry (some (some src)) = src.always_allow
own_entry _ = []

abbrev pub declared_for : String → String → Option Server → Bool
declared_for target tool none = false
declared_for target tool (some s) =
    contains s.always_allow tool
    || contains (over_list (common_spec s).always_allow (own_entry (target_entry s target))) tool

abbrev pub declared : Registry → String → String → String → Bool
declared r n target tool = declared_for target tool (get_server r n)

-- No server has a null entry for the target.
abbrev pub NoNullEntry : String → Option Server → Type 0
NoNullEntry target none = Unit
NoNullEntry target (some s) = target_entry s target ≢ some none

-- An action that returns this value and leaves the registry as it was, but for Env maps.
abbrev pub Answers : {A : Type 0} → A → Registry → Run (A × Registry) → Type 0
Answers a r (returns (b, r')) = (b ≡ a) × (strip r' ≡ strip r)
Answers a r panics = ⊥

allowed-merged :
    (n tool : String) (spec : TargetSpec) (t : Option (Option TargetSpec)) (r : Registry)
    → t ≢ some none
    → Answers
        (contains (over_list spec.always_allow (own_entry t)) tool)
        r
        ((merged n spec t >>= λ o. pure (spec_allows tool o)) r)
unfolding spec_allows merge_spec
allowed-merged n tool spec none r h = (refl, refl)
allowed-merged n tool spec (some none) r h = absurd (h refl)
allowed-merged n tool spec (some (some src)) r h =
    (refl, ground (arith, strip_servers-write_back n (merge_env spec.env src.env) r.servers))

pub spec_of_found :
    (n target : String) (r : Registry) {s : Server}
    → get_server r n ≡ some s
    → get_server_spec n target r ≡ merged n (common_spec s) (target_entry s target) r
unfolding get_server_spec
spec_of_found n target r e = rw (e, spec_for)

allowed_for_lem :
    (n target tool : String) (o : Option Server) (r : Registry)
    → get_server r n ≡ o
    → NoNullEntry target o
    → Answers (declared_for target tool o) r (allowed_for n target tool o r)
unfolding allowed_for
allowed_for_lem n target tool none r e h = (refl, refl)
allowed_for_lem n target tool (some s) r e h = elim (Bool-cases (contains s.always_allow tool)) [
  | inl yes' ↦ simp yes' (refl, refl)
  | inr no' ↦ simp no' (
      rw (spec_of_found n target r e, ◌>>=◌)
        (allowed-merged n tool (common_spec s) (target_entry s target) r h))
]

-- IsToolAlwaysAllowed answers whether the tool is on the server's own list or on its effective one,
-- the target's list where that has an entry and the common list otherwise, for every registry whose
-- server has no null entry for the target; it changes at most Env maps, which the answer never
-- depends on.
pub is_tool_always_allowed_lem :
    (n target tool : String) (r : Registry)
    → NoNullEntry target (get_server r n)
    → Answers (declared r n target tool) r (is_tool_always_allowed n target tool r)
unfolding is_tool_always_allowed
is_tool_always_allowed_lem n target tool r h =
    allowed_for_lem n target tool (get_server r n) r refl h
