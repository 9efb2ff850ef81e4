-- ===== src/Generator/TargetLaws.antt =====
-- What buildTargetMap of pkg/generator/configs.go keeps: servers that have a command.
use fi_mcp_kit.Base.{
  ◌≡◌, String, true, false, Option, none, some, List, [], ◌∷◌, All, str_eq, if_cases,
}
use fi_mcp_kit.Base.Dict.{Dict, insert}
use fi_mcp_kit.Base.Run.{Run, returns, panics, Eff, ◌>>=◌}
use fi_mcp_kit.Registry.Types.{Registry, Server, TargetSpec}
use fi_mcp_kit.Registry.Spec.{get_server_spec}
use fi_mcp_kit.Generator.Tokens.{Env}
use fi_mcp_kit.Generator.Targets.{
  ConfigOptions, target_spec, keep_spec, add_spec, target_specs, build_target_map,
}

abbrev pub HasCommand : String × TargetSpec → Type 0
HasCommand e = str_eq e.1.command "" ≡ false

insert-HasCommand :
    (name : String) (spec : TargetSpec) (d : Dict TargetSpec)
    → str_eq spec.command "" ≡ false
    → All HasCommand d
    → All HasCommand (insert name spec d)
unfolding insert
insert-HasCommand name spec [] h a = (h, tt)
insert-HasCommand name spec ((k, s) ∷ d) h a =
    elim (str_eq k name)
      as (λ b.
        All HasCommand (elim b [ true ↦ (name, spec) ∷ d | false ↦ (k, s) ∷ insert name spec d ])) [
          | true ↦ (h, a.1)
          | false ↦ (a.0, insert-HasCommand name spec d h a.1)
        ]

-- A result whose servers all have a command.
abbrev pub Commands : Run (Dict TargetSpec × Registry) → Type 0
Commands panics = Unit
Commands (returns (specs, r)) = All HasCommand specs

run-Commands :
    (x : Run (Option TargetSpec × Registry))
    (f : Option TargetSpec → Eff Registry (Dict TargetSpec))
    → ((o : Option TargetSpec) (t : Registry) → Commands (f o t))
    → Commands (elim x [ returns (o, t) ↦ f o t | panics ↦ panics ])
run-Commands panics f h = tt
run-Commands (returns (o, t)) f h = h o t

bind-Commands :
    (m : Eff Registry (Option TargetSpec)) (f : Option TargetSpec → Eff Registry (Dict TargetSpec))
    (r : Registry)
    → ((o : Option TargetSpec) (t : Registry) → Commands (f o t))
    → Commands ((m >>= f) r)
bind-Commands m f r h = run-Commands (m r) f h

module _ (env : Env) (opts : ConfigOptions) where
  keep_spec-HasCommand :
      (name : String) (spec : TargetSpec) (d : Dict TargetSpec)
      → All HasCommand d
      → All HasCommand (keep_spec env opts name spec d)
  keep_spec-HasCommand name spec d a =
      if_cases (All HasCommand) (str_eq spec.command "") _ _ (λ e. a)
        (λ e. insert-HasCommand name spec d e a)

  add_spec-HasCommand :
      (s : Server) (profile : String) (o : Option TargetSpec) (d : Dict TargetSpec)
      → All HasCommand d
      → All HasCommand (add_spec env opts s profile o d)
  add_spec-HasCommand s profile none d a = a
  add_spec-HasCommand s profile (some spec) d a =
      keep_spec-HasCommand s.name (target_spec env opts s profile spec) d a

  target_specs-Commands :
      (target profile : String) (l : List (Option Server)) (d : Dict TargetSpec) (r : Registry)
      → All HasCommand d
      → Commands (target_specs env opts target profile l d r)
  unfolding target_specs
  target_specs-Commands target profile [] d r a = a
  target_specs-Commands target profile (none ∷ rest) d r a = tt
  target_specs-Commands target profile (some s ∷ rest) d r a =
      bind-Commands (get_server_spec s.name target) _ r (λ o t.
        target_specs-Commands target profile rest (add_spec env opts s profile o d) t
          (add_spec-HasCommand s profile o d a))

  -- Outside proxy mode every server that buildTargetMap returns has a command.
  pub build_target_map-Commands :
      (target profile : String) (r : Registry)
      → opts.proxy_mode ≡ false
      → Commands (build_target_map env opts target profile r)
  unfolding build_target_map
  build_target_map-Commands target profile r h =
      rw h (target_specs-Commands target profile r.servers [] r tt)
