-- ===== src/Secrets/MasterKey.antt =====
-- Where the file backend of pkg/secrets/file.go takes its key and its path from: getMasterKey with
-- generateMasterKey and deriveKey, and NewFileBackend.
use fi_mcp_kit.Base.{
  ℕ, zero, suc, ◌/◌, ◌-◌, ◌*◌, String, Bool, true, false, Option, none, some, List, [], ◌∷◌, cat,
  str_eq, if◌then◌else◌,
}
use fi_mcp_kit.Secrets.Store.{Backend, usable}
use fi_mcp_kit.Secrets.FileBackend.{Bytes, FileState, opened}

abbrev pub nth_text : ℕ → List String → String
nth_text n [] = ""
nth_text zero (x ∷ xs) = x
nth_text (suc n) (x ∷ xs) = nth_text n xs

abbrev pub hex_digits : List String
hex_digits =
    "0" ∷ "1" ∷ "2" ∷ "3" ∷ "4" ∷ "5" ∷ "6" ∷ "7" ∷ "8" ∷ "9" ∷ "a" ∷ "b" ∷ "c" ∷ "d" ∷ "e" ∷ "f"
    ∷ []

-- fmt.Sprintf("%x", bytes)
unfoldable pub hex : Bytes → String
hex [] = ""
hex (b ∷ bs) =
    cat (nth_text (b / 16) hex_digits) (cat (nth_text (b - 16 * (b / 16)) hex_digits) (hex bs))

abbrev pub salt : String
salt = "loom-secrets-v1"

abbrev pub key_name : String
key_name = "_fi_mcp_master_key"

abbrev pub legacy_key_name : String
legacy_key_name = "_loom_master_key"

abbrev pub or_later {ℓ} : {A : Type ℓ} → Option A → Option A → Option A
or_later (some a) b = some a
or_later none b = b

-- `getenv` is os.Getenv, `keychain` what NewKeychainBackend returns, `random` 32 bytes of rand.Read,
-- `pbkdf2` the key that a passphrase and a salt give.
module _ {W : Type 0} (getenv : W → String → String) (keychain : W → Option (Backend W))
    (random : W → Option Bytes × W) (pbkdf2 : String → String → Bytes) where
  unfoldable pub derive_key : String → Bytes
  derive_key passphrase = pbkdf2 passphrase salt

  -- A key in the keychain, under the new name or the legacy one.
  abbrev pub kept_in : Option (Backend W) → W → Option String
  kept_in none w = none
  kept_in (some kb) w = or_later (usable (kb.get key_name w)) (usable (kb.get legacy_key_name w))

  unfoldable pub known_key : W → Option String
  known_key w =
      or_later (usable (some (getenv w "FI_MCP_MASTER_KEY")))
        (or_later (usable (some (getenv w "LOOM_MASTER_KEY"))) (kept_in (keychain w) w))

  -- The generated key is put in the keychain where there is one; errors are ignored.
  abbrev pub keep_in : Option (Backend W) → String → W → W
  keep_in none key w = w
  keep_in (some kb) key w = (kb.set legacy_key_name key (kb.set key_name key w).1).1

  abbrev pub generated : Option Bytes × W → Option Bytes × W
  generated (none, w) = (none, w)
  generated (some bytes, w) =
      let key = hex bytes in (some (derive_key key), keep_in (keychain w) key w)

  abbrev pub master_key_from : Option String → W → Option Bytes × W
  master_key_from (some key) w = (some (derive_key key), w)
  master_key_from none w = generated (random w)

  unfoldable pub get_master_key : W → Option Bytes × W
  unfolding known_key
  get_master_key w = master_key_from (known_key w) w

  abbrev pub opened_with : Option Bytes × W → Option (FileState W) × W
  opened_with (none, w) = (none, w)
  opened_with (some key, w) = (some (opened key w), w)

  abbrev pub after_dir : Bool × W → Option (FileState W) × W
  after_dir (false, w) = (none, w)
  after_dir (true, w) = opened_with (get_master_key w)

  -- `dir` is os.MkdirAll on the directory of the path. Nothing is an error.
  unfoldable pub new_file_backend :
      (dir : String → W → Bool × W) → String → W → Option (FileState W) × W
  unfolding get_master_key
  new_file_backend dir path w = after_dir (dir path w)

-- The path: the one given, else the default one, unless only the legacy file exists.
unfoldable pub secrets_path : String → String → String → Bool → Bool → String
secrets_path path default_path legacy_path default_exists legacy_exists =
    if str_eq path ""
    then (if default_exists
        then default_path
        else if legacy_exists
        then legacy_path
        else default_path)
    else path
