-- ===== src/Validator/DispatchLaws.antt =====
-- The target that a directory walk takes a generated file for, and the numbers of a summary.
use text.Mathlib.TextLemmas.{append_assoc}
use fi_mcp_kit.Base.{
  ℕ, ◌+◌, ◌-◌, ◌*◌, ◌/◌, ◌≤◌, ◌<◌, ◌≡◌, ◌≢◌, refl, sym, ◌∙◌, ap, subst, String, Bool, true, false,
  some, List, [], ◌∷◌, arith, eq_iff, cat, eqb, ltb, contains, All, text-cases, inl, inr,
  if◌then◌else◌,
}
use fi_mcp_kit.Base.Dict.{lookup}
use fi_mcp_kit.Secrets.FileLaws.{some_inj}
use fi_mcp_kit.Base.Decimal.{digit, itoa, itoa_small, itoa_two}
use fi_mcp_kit.Validator.Dispatch.{get_config_path, infer_target, target_of_file, pluralize}

found_again :
    (t : String) (path : String × String) {p : String × String}
    → target_of_file path.0 path.1 ≡ some t
    → some path ≡ some p
    → target_of_file p.0 p.1 ≡ some t
found_again t path h e = subst (λ p. target_of_file p.0 p.1 ≡ some t) (some_inj e) h

-- The targets that have a file.
abbrev pub known_targets : List String
known_targets =
    "claude" ∷ "vscode" ∷ "antigravity" ∷ "claude_desktop" ∷ "kilocode" ∷ "codex" ∷ "gemini" ∷ []

abbrev FoundAgain : String → Type 0
FoundAgain t = (p : String × String) → get_config_path t ≡ some p → target_of_file p.0 p.1 ≡ some t

known-FoundAgain : All FoundAgain known_targets
unfolding get_config_path target_of_file infer_target lookup
known-FoundAgain = (
  λ p e. found_again "claude" ("claude", "mcp.json") refl e,
  (
    λ p e. found_again "vscode" ("vscode", "mcp.json") refl e,
    (
      λ p e. found_again "antigravity" ("antigravity", "mcp.json") refl e,
      (
        λ p e. found_again "claude_desktop" ("claude_desktop", "claude_desktop_config.json") refl e,
        (
          λ p e. found_again "kilocode" ("kilocode", "kilo.json") refl e,
          (
            λ p e. found_again "codex" ("codex", "config.toml") refl e,
            (λ p e. found_again "gemini" ("gemini", "config.toml") refl e, tt),
          ),
        ),
      ),
    ),
  ),
)

-- What holds for every text of a list holds for a text that is one of them.
pub of_listed :
    (P : String → Type 0) (t : String) (l : List String) → All P l → contains l t ≡ true → P t
of_listed P t [] a h = cc
of_listed P t (s ∷ l) a h = elim (text-cases s t) [
  | inl (e, _) ↦ subst P e a.0
  | inr (_, n) ↦ of_listed P t l a.1 (rw n at h)
]

pub has_path-known :
    (t : String) {p : String × String}
    → get_config_path t ≡ some p
    → contains known_targets t ≡ true
unfolding get_config_path
has_path-known t h = ground (
  arith,
  eq_iff "claude" t,
  eq_iff t "claude",
  eq_iff "vscode" t,
  eq_iff t "vscode",
  eq_iff "antigravity" t,
  eq_iff t "antigravity",
  eq_iff "claude_desktop" t,
  eq_iff t "claude_desktop",
  eq_iff "kilocode" t,
  eq_iff t "kilocode",
  eq_iff "codex" t,
  eq_iff t "codex",
  eq_iff "gemini" t,
  eq_iff t "gemini",
)

-- A file that stands where getConfigPath puts the file of a target is taken for that target by
-- ValidateDirectory.
pub target_of_file-get_config_path :
    (target : String) {parent file : String}
    → get_config_path target ≡ some (parent, file)
    → target_of_file parent file ≡ some target
target_of_file-get_config_path target {parent} {file} h =
    of_listed FoundAgain target known_targets known-FoundAgain (has_path-known target h)
      (parent, file) h

module _ (rune_text : ℕ → String)
    (digit_runes : (n : ℕ) → n < 10 → rune_text (b'0' + n) ≡ digit n) where
  -- A count of one digit other than 1 is written with a leading zero.
  pub pluralize_padded :
      (n : ℕ) (singular plural : String)
      → n < 10
      → n ≢ 1
      → pluralize rune_text n singular plural ≡ cat "0" (cat (itoa n) (cat " " plural))
  unfolding pluralize
  pluralize_padded n singular plural h k =
      let tens : n / 10 ≡ 0 = omega arith in
      let units : n - n / 10 * 10 ≡ n = omega arith in
      let other : eqb n 1 ≡ false = ground arith in
      let small : ltb n 10 ≡ true = ground arith in
      ap
        (λ (b : Bool).
          if b
          then cat "1 " singular
          else cat (rune_text (b'0' + n / 10))
              (cat (rune_text (b'0' + (n - n / 10 * 10))) (cat " " plural)))
        other
      ∙ ap
          (λ (m : ℕ).
            cat (rune_text (b'0' + m))
              (cat (rune_text (b'0' + (n - n / 10 * 10))) (cat " " plural)))
          tens
      ∙ ap (λ (s : String). cat s (cat (rune_text (b'0' + (n - n / 10 * 10))) (cat " " plural)))
          (digit_runes 0 (omega arith))
      ∙ ap (λ (m : ℕ). cat "0" (cat (rune_text (b'0' + m)) (cat " " plural))) units
      ∙ ap (λ (s : String). cat "0" (cat s (cat " " plural)))
          (digit_runes n h ∙ sym (itoa_small n h))

  -- A count from 10 to 99 is written in decimal.
  pub pluralize_decimal :
      (n : ℕ) (singular plural : String)
      → 10 ≤ n
      → n < 100
      → pluralize rune_text n singular plural ≡ cat (itoa n) (cat " " plural)
  unfolding pluralize
  pluralize_decimal n singular plural h k =
      let other : eqb n 1 ≡ false = ground arith in
      let rest = cat " " plural in
      ap
        (λ (b : Bool).
          if b
          then cat "1 " singular
          else cat (rune_text (b'0' + n / 10)) (cat (rune_text (b'0' + (n - n / 10 * 10))) rest))
        other
      ∙ ap (λ (s : String). cat s (cat (rune_text (b'0' + (n - n / 10 * 10))) rest))
          (digit_runes (n / 10) (omega arith))
      ∙ ap (λ (s : String). cat (digit (n / 10)) (cat s rest))
          (digit_runes (n - n / 10 * 10) (omega arith))
      ∙ sym (append_assoc (digit (n / 10)) (digit (n - n / 10 * 10)) rest)
      ∙ ap (λ (s : String). cat s rest) (sym (itoa_two n h k))
