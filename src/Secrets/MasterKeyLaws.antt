-- ===== src/Secrets/MasterKeyLaws.antt =====
-- A generated master key is found again.
use Prim.Native.Char.{Char}
use text.Mathlib.TextLemmas.{cons-append, cons-ne-nil}
use fi_mcp_kit.Base.{
  ℕ, zero, suc, ◌<◌, ◌/◌, ◌-◌, ◌*◌, List, [], ◌∷◌, cat, length, All, ◌≡◌, refl, sym, ◌∙◌, ap,
  String, true, false, Option, none, some, str_eq, eq_iff, arith, inl, inr, Bool-cases,
}
use fi_mcp_kit.Secrets.Store.{Backend}
use fi_mcp_kit.Base.Text.{trim_space, is_solid, trim_space-is_solid, is_solid-cat}
use fi_mcp_kit.Secrets.FileBackend.{Bytes}
use fi_mcp_kit.Secrets.MasterKey.{
  hex, hex_digits, nth_text, key_name, legacy_key_name, derive_key, known_key, kept_in,
  master_key_from, get_master_key,
}

nth_text_not_empty :
    (n : ℕ) (l : List String)
    → All (λ t. str_eq t "" ≡ false) l
    → n < length l
    → str_eq (nth_text n l) "" ≡ false
nth_text_not_empty n [] a h = absurd (omega arith)
nth_text_not_empty zero (x ∷ l) a h = a.0
nth_text_not_empty (suc n) (x ∷ l) a h = nth_text_not_empty n l a.1 (omega arith)

cons_not_empty : (c : Char) (s : String) → str_eq (String.◌∷◌ c s) "" ≡ false
cons_not_empty c s = elim (Bool-cases (str_eq (String.◌∷◌ c s) "")) [
  | inl e ↦ absurd (cons-ne-nil c s ((eq_iff _ _).0 e))
  | inr e ↦ e
]

cat_not_empty : (s t : String) → str_eq s "" ≡ false → str_eq (cat s t) "" ≡ false
cat_not_empty String.[] t h = cc
cat_not_empty (String.◌∷◌ c s) t h = rw (cons-append c s t) (cons_not_empty c (cat s t))

digits_not_empty : All (λ t. str_eq t "" ≡ false) hex_digits
digits_not_empty = ground arith

hex_not_empty :
    (bytes : Bytes) → 0 < length bytes → All (λ b. b < 256) bytes → str_eq (hex bytes) "" ≡ false
unfolding hex
hex_not_empty [] h a = absurd (omega arith)
hex_not_empty (b ∷ bs) h a =
    cat_not_empty (nth_text (b / 16) hex_digits) _
      (nth_text_not_empty (b / 16) hex_digits digits_not_empty (omega arith))

nth_text_solid :
    (n : ℕ) (l : List String) → All (λ t. is_solid t ≡ true) l → is_solid (nth_text n l) ≡ true
unfolding is_solid
nth_text_solid n [] a = refl
nth_text_solid zero (x ∷ l) a = a.0
nth_text_solid (suc n) (x ∷ l) a = nth_text_solid n l a.1

digits_solid : All (λ t. is_solid t ≡ true) hex_digits
unfolding is_solid
digits_solid = ground arith

hex_solid : (bytes : Bytes) → is_solid (hex bytes) ≡ true
unfolding hex is_solid
hex_solid [] = refl
hex_solid (b ∷ bs) =
    is_solid-cat (nth_text (b / 16) hex_digits) _ (nth_text_solid (b / 16) hex_digits digits_solid)
      (is_solid-cat (nth_text (b - 16 * (b / 16)) hex_digits) (hex bs)
        (nth_text_solid (b - 16 * (b / 16)) hex_digits digits_solid) (hex_solid bs))

module _ {W : Type 0} (getenv : W → String → String) (keychain : W → Option (Backend W))
    (random : W → Option Bytes × W) (pbkdf2 : String → String → Bytes) where
  -- No variable has a key.
  abbrev pub NoEnvKey : W → Type 0
  NoEnvKey w = (getenv w "FI_MCP_MASTER_KEY" ≡ "") × (getenv w "LOOM_MASTER_KEY" ≡ "")

  -- A usable value is the key of the keychain, whatever stands under the legacy name.
  known_key_of :
      (w : W) (kb : Backend W) (key : String)
      → NoEnvKey w
      → keychain w ≡ some kb
      → kb.get key_name w ≡ some key
      → str_eq key "" ≡ false
      → known_key getenv keychain random pbkdf2 w ≡ some key
  unfolding known_key
  known_key_of w kb key (a, b) c g n = rw (a, b, c, g, n) refl

  -- Documented behaviour of the keychain, the environment and rand.Read: a value that a Set of the
  -- keychain takes is found by a Get of the same name, which trims it, and by no other; neither a Set
  -- nor the random source changes the environment or whether there is a keychain; rand.Read fills the
  -- slice.
  pub record IsSystem (kb : Backend W) : Type 0 where
    pub trims :
        (name value : String) (w : W)
        → (kb.set name value w).0 ≡ true
        → kb.get name (kb.set name value w).1 ≡ some (trim_space value)
    pub apart :
        (value : String) (w : W)
        → kb.get key_name (kb.set legacy_key_name value w).1 ≡ kb.get key_name w
    pub set_keeps : (name value : String) (w : W) → keychain (kb.set name value w).1 ≡ keychain w
    pub set_env :
        (name value asked : String) (w : W) → getenv (kb.set name value w).1 asked ≡ getenv w asked
    pub random_keeps : (w : W) → keychain (random w).1 ≡ keychain w
    pub random_env : (w : W) (asked : String) → getenv (random w).1 asked ≡ getenv w asked
    pub random_fills :
        (w : W) {bytes : Bytes}
        → (random w).0 ≡ some bytes
        → (length bytes ≡ 32) × All (λ b. b < 256) bytes

  abbrev kept : Backend W → String → W → W
  kept kb key w = (kb.set legacy_key_name key (kb.set key_name key w).1).1

  generated_lem :
      (w : W) (kb : Backend W) {bytes : Bytes} {w1 : W}
      → NoEnvKey w
      → keychain w ≡ some kb
      → keychain w1 ≡ some kb
      → kept_in getenv keychain random pbkdf2 (some kb) w ≡ none
      → random w ≡ (some bytes, w1)
      → get_master_key getenv keychain random pbkdf2 w
        ≡ (some (derive_key getenv keychain random pbkdf2 (hex bytes)), kept kb (hex bytes) w1)
  unfolding get_master_key known_key
  generated_lem w kb (a, b) here there empty e = rw (a, b, here, empty, e, there) refl

  asked_again :
      (w1 : W) (kb : Backend W) (key : String)
      → IsSystem kb
      → trim_space key ≡ key
      → NoEnvKey w1
      → keychain w1 ≡ some kb
      → str_eq key "" ≡ false
      → (kb.set key_name key w1).0 ≡ true
      → known_key getenv keychain random pbkdf2 (kept kb key w1) ≡ some key
  asked_again w1 kb key sys whole (a, b) there n took =
      let w2 = (kb.set key_name key w1).1 in
      let env = λ (name : String).
        sys.set_env legacy_key_name key name w2 ∙ sys.set_env key_name key name w1 in
      known_key_of (kept kb key w1) kb key (env _ ∙ a, env _ ∙ b)
        (sys.set_keeps legacy_key_name key w2 ∙ sys.set_keeps key_name key w1 ∙ there)
        (sys.apart key w2 ∙ sys.trims key_name key w1 took ∙ ap some whole) n

  -- On a keychain, an environment and a random source as documented, where no variable has a key and the
  -- keychain has none: if the keychain takes the generated key, a later start of the program finds the
  -- same key again.
  pub get_master_key-again :
      (w : W) (kb : Backend W) {bytes : Bytes} {w1 : W}
      → IsSystem kb
      → NoEnvKey w
      → keychain w ≡ some kb
      → kept_in getenv keychain random pbkdf2 (some kb) w ≡ none
      → random w ≡ (some bytes, w1)
      → (kb.set key_name (hex bytes) w1).0 ≡ true
      → let r = get_master_key getenv keychain random pbkdf2 w in
        (r.0 ≡ some (derive_key getenv keychain random pbkdf2 (hex bytes)))
        × ((get_master_key getenv keychain random pbkdf2 r.1).0 ≡ r.0)
  unfolding get_master_key
  get_master_key-again w kb {bytes} {w1} sys (a, b) here empty e took =
      let key = hex bytes in
      let there = ap (λ x. keychain x.1) (sym e) ∙ sys.random_keeps w ∙ here in
      let env = λ (name : String). ap (λ x. getenv x.1 name) (sym e) ∙ sys.random_env w name in
      let (size, range) = sys.random_fills w (ap (λ x. x.0) e) in
      let n = hex_not_empty bytes (omega (arith, size)) range in
      let first = generated_lem w kb (a, b) here there empty e in
      let found =
        asked_again w1 kb key sys (trim_space-is_solid key (hex_solid bytes)) (env _ ∙ a, env _ ∙ b)
          there n took in
      (
        ap (λ r. r.0) first,
        ap (λ r. (get_master_key getenv keychain random pbkdf2 r.1).0) first
            ∙ ap (λ o. (master_key_from getenv keychain random pbkdf2 o (kept kb key w1)).0) found
            ∙ sym (ap (λ r. r.0) first),
      )
