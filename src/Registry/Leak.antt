-- ===== src/Registry/Leak.antt =====
-- GetServerSpec of one target is seen by GetServerSpec of another: the Env map of the common spec is
-- shared with the registry, and what the first call merges into it stays there.
use fi_mcp_kit.Base.{◌≡◌, ◌∙◌, refl, String, Option, none, some, [], arith}
use fi_mcp_kit.Base.Dict.{Dict, Distinct, lookup}
use fi_mcp_kit.Base.Run.{Run, returns, panics, ◌>>=◌}
use fi_mcp_kit.Registry.Types.{Registry, Server, TargetSpec}
use fi_mcp_kit.Registry.Spec.{
  get_server, write_all, merge_env, merge_spec, write_back, common_spec, target_entry,
  get_server_spec,
}
use fi_mcp_kit.Registry.SpecLaws.{over, lookup-write_all, find_server-write_back, spec_of_found}

-- A variable of the environment that a returned spec would start the server with.
abbrev pub env_at : String → Option (Dict String) → Option String
env_at k none = none
env_at k (some env) = lookup k env

abbrev pub seen : String → Run (Option TargetSpec × Registry) → Option String
seen k (returns (some spec, r)) = env_at k spec.env
seen k (returns (none, r)) = none
seen k panics = none

-- For a server that is found, and a target that has an entry with variables of its own, a variable of
-- the spec that GetServerSpec returns is the target's own where it sets it, and the common one
-- otherwise.
pub seen-get_server_spec :
    (k n target : String) (r : Registry) (s : Server) (src : TargetSpec) (own : Dict String)
    → get_server r n ≡ some s
    → target_entry s target ≡ some (some src)
    → src.env ≡ some own
    → Distinct own
    → seen k (get_server_spec n target r) ≡ over (env_at k (common_spec s).env) (lookup k own)
unfolding merge_spec merge_env
seen-get_server_spec k n target r s src own e t h d =
    rw (spec_of_found n target r e)
      (ground (arith, t, h, lookup-write_all k [] own d, nothing, base (common_spec s).env))
  where
    nothing : lookup {V = String} k [] ≡ none
    nothing = unfold lookup in refl

    base :
        (c : Option (Dict String))
        → env_at k (merge_env c (some own)) ≡ over (env_at k c) (lookup k own)
    base none = ground (arith, lookup-write_all k [] own d, nothing)
    base (some env) = lookup-write_all k env own d

module _ (n first : String) (r : Registry) (s : Server) (c src : TargetSpec) (env own : Dict String)
    (e : get_server r n ≡ some s) (hc : s.common ≡ some c) (he : c.env ≡ some env)
    (t : target_entry s first ≡ some (some src)) (h : src.env ≡ some own) where
  -- The registry behind the first call.
  abbrev polluted : Registry
  polluted = record r { servers = write_back n (some (write_all env own)) r.servers }

  first_call : get_server_spec n first r ≡ returns (some (merge_spec c src), polluted)
  unfolding merge_spec merge_env
  first_call = rw (spec_of_found n first r e) (ground (arith, hc, he, t, h))

  abbrev polluted_server : Server
  polluted_server = record s { common = some (record c { env = some (write_all env own) }) }

  then_found : get_server polluted n ≡ some polluted_server
  unfolding get_server
  then_found =
      find_server-write_back n (some (write_all env own)) r.servers e ∙ ground (arith, hc, he)

  second_call :
      (second : String)
      → target_entry s second ≡ none
      → get_server_spec n second polluted
        ≡ returns (some (record c { env = some (write_all env own) }), polluted)
  second_call second t2 = rw (spec_of_found n second polluted then_found) (ground (arith, t2))

-- If the target `first` sets a variable that a server's common spec, which has an Env map, does not
-- set to the same, then a call for `first` changes what a later call for the target `second` returns:
-- `second`, which has no entry of its own, gets the common environment before, and the variable with
-- `first`'s value after.
pub leak :
    (k v n first second : String) (r : Registry) (s : Server) (c src : TargetSpec)
    (env own : Dict String)
    → get_server r n ≡ some s
    → s.common ≡ some c
    → c.env ≡ some env
    → target_entry s first ≡ some (some src)
    → src.env ≡ some own
    → Distinct own
    → lookup k own ≡ some v
    → target_entry s second ≡ none
    → (seen k (get_server_spec n second r) ≡ lookup k env)
      × (seen k ((get_server_spec n first >>= λ _. get_server_spec n second) r) ≡ some v)
leak k v n first second r s c src env own e hc he t h d found t2 = (
  rw (spec_of_found n second r e) (ground (arith, hc, he, t2)),
  rw (first_call n first r s c src env own e hc he t h, ◌>>=◌)
      (rw (second_call n first r s c src env own e hc he t h second t2)
        (rw (lookup-write_all k env own d) (ground (arith, found)))),
)
