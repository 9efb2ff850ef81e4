-- ===== src/Generator/FileLaws.antt =====
-- Where the generator of pkg/generator/configs.go puts a target's file, against where pkg/validator looks
-- for it.
use fi_mcp_kit.Base.{◌≡◌, refl, subst, All, String, some, List, [], ◌∷◌, contains, if◌then◌else◌}
use fi_mcp_kit.Base.Dict.{Dict}
use fi_mcp_kit.Base.Value.{Value}
use fi_mcp_kit.Registry.Types.{TargetSpec}
use fi_mcp_kit.Secrets.FileLaws.{some_inj}
use fi_mcp_kit.Validator.Dispatch.{get_config_path}
use fi_mcp_kit.Validator.DispatchLaws.{known_targets, of_listed, has_path-known}
use fi_mcp_kit.Generator.Tokens.{Env}
use fi_mcp_kit.Generator.Files.{target_file}

module _ (env : Env) (quote : String → String) (json_args : List Value → String)
    (json_list : List String → String) where
  module _ (specs : Dict TargetSpec) where
    abbrev Agrees : String → String × String → Type 0
    Agrees t p =
        (p.0 ≡ t)
        × ((target_file env quote json_args json_list t specs).0
            ≡ (if contains ("claude" ∷ "claude_desktop" ∷ []) t then "config.toml" else p.1))

    at_path :
        (t : String) (path : String × String) {p : String × String}
        → Agrees t path
        → some path ≡ some p
        → Agrees t p
    at_path t path h e = subst (Agrees t) (some_inj e) h

    known-Agrees :
        All (λ t. (p : String × String) → get_config_path t ≡ some p → Agrees t p) known_targets
    unfolding get_config_path target_file
    known-Agrees = (
      λ p e. at_path "claude" ("claude", "mcp.json") (refl, refl) e,
      (
        λ p e. at_path "vscode" ("vscode", "mcp.json") (refl, refl) e,
        (
          λ p e. at_path "antigravity" ("antigravity", "mcp.json") (refl, refl) e,
          (
            λ p e.
                at_path "claude_desktop" ("claude_desktop", "claude_desktop_config.json")
                  (refl, refl) e,
            (
              λ p e. at_path "kilocode" ("kilocode", "kilo.json") (refl, refl) e,
              (
                λ p e. at_path "codex" ("codex", "config.toml") (refl, refl) e,
                (λ p e. at_path "gemini" ("gemini", "config.toml") (refl, refl) e, tt),
              ),
            ),
          ),
        ),
      ),
    )

  -- The file of a target has the name under which the validator looks for it, except for the targets
  -- claude and claude_desktop, which get a config.toml.
  pub target_file-get_config_path :
      (target : String) (specs : Dict TargetSpec) {dir file : String}
      → get_config_path target ≡ some (dir, file)
      → (dir ≡ target)
        × ((target_file env quote json_args json_list target specs).0
            ≡ (if contains ("claude" ∷ "claude_desktop" ∷ []) target then "config.toml" else file))
  target_file-get_config_path target specs {dir} {file} h =
      of_listed (λ t. (p : String × String) → get_config_path t ≡ some p → Agrees specs t p) target
        known_targets (known-Agrees specs) (has_path-known target h) (dir, file) h
