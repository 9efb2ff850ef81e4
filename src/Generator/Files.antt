-- ===== src/Generator/Files.antt =====
-- GenerateConfigsWithPath of pkg/generator/configs.go: the loop over the targets, which writes one file
-- for each and ends at the first that cannot be written.
use fi_mcp_kit.Base.{String, Bool, true, false, List, [], ◌∷◌, str_eq, contains, if◌then◌else◌}
use fi_mcp_kit.Base.Dict.{Dict}
use fi_mcp_kit.Base.Run.{Run, returns, panics}
use fi_mcp_kit.Base.Value.{Value}
use fi_mcp_kit.Registry.Types.{Registry, TargetSpec}
use fi_mcp_kit.Generator.Tokens.{Env}
use fi_mcp_kit.Generator.Targets.{ConfigOptions, build_target_map}
use fi_mcp_kit.Generator.Configs.{json_config, kilo_config, toml_config}

-- A JSON document, before it is marshalled, or a text.
pub data FileBody : Type 0 where
  json_body : Value → FileBody
  text_body : String → FileBody

abbrev pub all_targets : List String
all_targets =
    "codex" ∷ "kilocode" ∷ "vscode" ∷ "example_client" ∷ "example_desktop" ∷ "gemini"
    ∷ "antigravity" ∷ []

unfoldable pub chosen_targets : List String → List String
chosen_targets [] = all_targets
chosen_targets (t ∷ ts) = if str_eq t "all" then all_targets else t ∷ ts

module _ (env : Env) (quote : String → String) (json_args : List Value → String)
    (json_list : List String → String) where
  -- The file of a target below its directory, with its contents.
  unfoldable pub target_file : String → Dict TargetSpec → String × FileBody
  unfolding json_config kilo_config toml_config
  target_file target specs =
      if contains ("vscode" ∷ "antigravity" ∷ "example_client" ∷ []) target
      then ("mcp.json", json_body (json_config env specs))
      else if str_eq target "example_desktop"
      then ("example_desktop_config.json", json_body (json_config env specs))
      else if str_eq target "kilocode"
      then ("kilo.json", json_body (kilo_config env specs))
      else ("config.toml", text_body (toml_config quote json_args json_list target specs))

  -- `write` makes the directory of the target and writes its file, and says whether that worked.
  module _ {W : Type 0} (write : String → String × FileBody → W → Bool × W)
      (opts : ConfigOptions) where
    abbrev pub written_one :
        Registry
        → (Registry × W → Run (Bool × (Registry × W)))
        → Bool × W
        → Run (Bool × (Registry × W))
    written_one r rest (false, w) = returns (false, (r, w))
    written_one r rest (true, w) = rest (r, w)

    abbrev pub write_target :
        String
        → W
        → (Registry × W → Run (Bool × (Registry × W)))
        → Run (Dict TargetSpec × Registry)
        → Run (Bool × (Registry × W))
    write_target target w rest panics = panics
    write_target target w rest (returns (specs, r)) =
        written_one r rest (write target (target_file target specs) w)

    unfoldable pub generate_targets : List String → Registry × W → Run (Bool × (Registry × W))
    unfolding build_target_map target_file
    generate_targets [] s = returns (true, s)
    generate_targets (t ∷ ts) (r, w) =
        write_target t w (generate_targets ts) (build_target_map env opts t t r)

    abbrev pub in_dir : List String → Registry → Bool × W → Run (Bool × (Registry × W))
    in_dir targets r (false, w) = returns (false, (r, w))
    in_dir targets r (true, w) = generate_targets (chosen_targets targets) (r, w)

    -- `mkdir` makes the output directory.
    unfoldable pub generate_configs :
        (mkdir : W → Bool × W) → List String → Registry → W → Run (Bool × (Registry × W))
    unfolding generate_targets chosen_targets
    generate_configs mkdir targets r w = in_dir targets r (mkdir w)
