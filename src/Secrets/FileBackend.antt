-- ===== src/Secrets/FileBackend.antt =====
-- The encrypted file of pkg/secrets/file.go. Bytes are numbers. The file system, the random source,
-- AES-GCM and JSON are parameters; a backend keeps its cache, and the disk is its world.
use fi_mcp_kit.Base.{
  ℕ, zero, suc, String, Bool, true, false, Option, none, some, List, [], ◌∷◌, ◌++◌, length, take,
  ltb, map, if◌then◌else◌,
}
use fi_mcp_kit.Base.Dict.{Dict, read, insert, erase}
use fi_mcp_kit.Base.Run.{Run, returns, panics}
use fi_mcp_kit.Secrets.Store.{Backend}

abbrev pub Bytes : Type 0
Bytes = List ℕ

-- cipher.AEAD, as far as the backend uses it.
pub record Gcm : Type 0 where
  pub nonce_size : ℕ
  pub seal : Bytes → Bytes → Bytes
  pub open_sealed : Bytes → Bytes → Option Bytes

-- What os.ReadFile makes of the file.
pub data FileRead : Type 0 where
  missing failed : FileRead
  contents : Bytes → FileRead

-- What the backend calls: files at its path and at the path with ".tmp", randomness, AES-GCM under a
-- key, and JSON. Unmarshal writes into the map that it is given, and says whether it worked.
pub record System (W : Type 0) : Type 0 where
  pub read_file : W → FileRead
  pub write_tmp : Bytes → W → Bool × W
  pub rename_tmp : W → Bool × W
  pub remove_tmp : W → W
  pub random : ℕ → W → Option Bytes × W
  pub new_gcm : Bytes → Option Gcm
  pub marshal : Option (Dict String) → Option Bytes
  pub unmarshal : Bytes → Option (Dict String) → Bool × Option (Dict String)

-- A backend and its world. A cache that is none is a nil map.
pub record FileState (W : Type 0) : Type 0 where
  pub key : Bytes
  pub cache : Option (Dict String)
  pub loaded : Bool
  pub world : W

abbrev pub drop {ℓ} : {A : Type ℓ} → ℕ → List A → List A
drop zero xs = xs
drop (suc n) [] = []
drop (suc n) (x ∷ xs) = drop n xs

-- &FileBackend{…} on a world.
abbrev pub opened : {W : Type 0} → Bytes → W → FileState W
opened key w = record { key = key; cache = some []; loaded = false; world = w }

abbrev pub keys_in : Option (Dict String) → List String
keys_in none = []
keys_in (some d) = map {A = String × String} (λ p. p.0) d

abbrev pub value_in : String → Option (Dict String) → String
value_in key none = ""
value_in key (some d) = read "" key d

abbrev pub without : String → Option (Dict String) → Option (Dict String)
without key none = none
without key (some d) = some (erase key d)

module _ {W : Type 0} (sys : System W) where
  abbrev pub sealed : Gcm → Bytes → Option Bytes × W → Option Bytes × W
  sealed g plain (none, w) = (none, w)
  sealed g plain (some nonce, w) = (some (nonce ++ g.seal nonce plain), w)

  abbrev pub encrypt_under : Option Gcm → Bytes → W → Option Bytes × W
  encrypt_under none plain w = (none, w)
  encrypt_under (some g) plain w = sealed g plain (sys.random g.nonce_size w)

  unfoldable pub encrypt : Bytes → Bytes → W → Option Bytes × W
  encrypt key plain w = encrypt_under (sys.new_gcm key) plain w

  abbrev pub decrypt_under : Option Gcm → Bytes → Option Bytes
  decrypt_under none cipher = none
  decrypt_under (some g) cipher =
      if ltb (length cipher) g.nonce_size
      then none
      else g.open_sealed (take g.nonce_size cipher) (drop g.nonce_size cipher)

  unfoldable pub decrypt : Bytes → Bytes → Option Bytes
  decrypt key cipher = decrypt_under (sys.new_gcm key) cipher

  abbrev pub parsed_cache : FileState W → Bool × Option (Dict String) → Bool × FileState W
  parsed_cache s (ok, cache) = (ok, record s { cache = cache; loaded = ok })

  abbrev pub load_plain : FileState W → Option Bytes → Bool × FileState W
  load_plain s none = (false, s)
  load_plain s (some plain) = parsed_cache s (sys.unmarshal plain s.cache)

  unfoldable pub load_file : FileState W → FileRead → Bool × FileState W
  unfolding decrypt
  load_file s missing = (true, record s { cache = some []; loaded = true })
  load_file s failed = (false, s)
  load_file s (contents c) = load_plain s (decrypt s.key c)

  -- Whether it worked, and the backend with its cache filled.
  unfoldable pub load : FileState W → Bool × FileState W
  unfolding load_file
  load s = if s.loaded then (true, s) else load_file s (sys.read_file s.world)

  abbrev pub renamed : Bool × W → Bool × W
  renamed (true, w) = (true, w)
  renamed (false, w) = (false, sys.remove_tmp w)

  abbrev pub written : Bool × W → Bool × W
  written (true, w) = renamed (sys.rename_tmp w)
  written (false, w) = (false, w)

  abbrev pub write_sealed : Option Bytes × W → Bool × W
  write_sealed (none, w) = (false, w)
  write_sealed (some c, w) = written (sys.write_tmp c w)

  abbrev pub save_plain : Bytes → W → Option Bytes → Bool × W
  save_plain key w none = (false, w)
  save_plain key w (some plain) = write_sealed (encrypt key plain w)

  abbrev pub in_world : FileState W → Bool × W → Bool × FileState W
  in_world s (ok, w) = (ok, record s { world = w })

  unfoldable pub save : FileState W → Bool × FileState W
  unfolding encrypt
  save s = in_world s (save_plain s.key s.world (sys.marshal s.cache))

  abbrev pub got_value : String → Bool × FileState W → Option String × FileState W
  got_value key (false, s) = (none, s)
  got_value key (true, s) = (some (value_in key s.cache), s)

  unfoldable pub get : String → FileState W → Option String × FileState W
  unfolding load
  get key s = got_value key (load s)

  -- `b.cache[key] = value` panics on a nil map.
  abbrev pub put_value :
      String → String → FileState W → Option (Dict String) → Run (Bool × FileState W)
  put_value key value s none = panics
  put_value key value s (some d) = returns (save (record s { cache = some (insert key value d) }))

  abbrev pub set_loaded : String → String → Bool × FileState W → Run (Bool × FileState W)
  set_loaded key value (false, s) = returns (false, s)
  set_loaded key value (true, s) = put_value key value s s.cache

  unfoldable pub set : String → String → FileState W → Run (Bool × FileState W)
  unfolding load save
  set key value s = set_loaded key value (load s)

  abbrev pub delete_loaded : String → Bool × FileState W → Bool × FileState W
  delete_loaded key (false, s) = (false, s)
  delete_loaded key (true, s) = save (record s { cache = without key s.cache })

  unfoldable pub delete : String → FileState W → Bool × FileState W
  unfolding load save
  delete key s = delete_loaded key (load s)

  abbrev pub listed : Bool × FileState W → Option (List String) × FileState W
  listed (false, s) = (none, s)
  listed (true, s) = (some (keys_in s.cache), s)

  unfoldable pub list : FileState W → Option (List String) × FileState W
  unfolding load
  list s = listed (load s)

  -- A panic ends the program: no call follows it.
  abbrev pub or_ends : FileState W → Run (Bool × FileState W) → Bool × FileState W
  or_ends s panics = (false, s)
  or_ends s (returns r) = r

  -- The interface of store.go on such a backend.
  unfoldable pub file_backend : Backend (FileState W)
  unfolding get set delete list
  file_backend = record {
    name = "file";
    read_only = false;
    get = λ key s. (get key s).0;
    list = λ s. (list s).0;
    set = λ key value s. or_ends s (set key value s);
    delete = λ key s. delete key s;
  }
