-- ===== src/Secrets/FileView.antt =====
-- The map that a backend of pkg/secrets/file.go stands for, and that Get and List read it.
use fi_mcp_kit.Base.{
  List, arith, contains, ◌∷◌, ◌≡◌, refl, sym, ◌∙◌, ap, subst, String, Bool, true, false, Option,
  none, some, [], str_eq, if◌then◌else◌,
}
use fi_mcp_kit.Base.Dict.{Dict, lookup, read}
use fi_mcp_kit.Secrets.FileBackend.{
  list, listed, keys_in, Bytes, FileRead, missing, failed, contents, System, FileState, decrypt,
  load_file, load, get, got_value, load_plain, parsed_cache,
}

abbrev pub SecretMap : Type 0
SecretMap = String → Option String

-- What Get makes of an entry that may be missing.
abbrev pub value_of : Option String → String
value_of none = ""
value_of (some v) = v

abbrev pub is_there : Option String → Bool
is_there none = false
is_there (some v) = true

abbrev pub Holds : SecretMap → Dict String → Type 0
Holds f d = (k : String) → lookup k d ≡ f k

-- The map with one key changed.
abbrev pub update : SecretMap → String → Option String → SecretMap
update f key v k = if str_eq key k then v else f k

module _ {W : Type 0} (sys : System W) where
  -- What a file holds for a key: no map while it is missing, and otherwise what its contents decrypt
  -- and decode to.
  abbrev pub Stored : SecretMap → Bytes → FileRead → Type 0
  Stored f key missing = (k : String) → f k ≡ none
  Stored f key failed = ⊥
  Stored f key (contents c) =
      (plain : Bytes) × (d : Dict String) × (decrypt sys key c ≡ some plain)
      × (sys.unmarshal plain (some []) ≡ (true, some d))
      × Holds f d

  -- A backend stands for a map: the file holds it, and so does the cache once it is filled.
  pub data Models (f : SecretMap) (s : FileState W) : Type 0 where
    unread :
        s.loaded ≡ false → s.cache ≡ some [] → Stored f s.key (sys.read_file s.world) → Models f s
    cached :
        (d : Dict String)
        → s.loaded ≡ true
        → s.cache ≡ some d
        → Holds f d
        → Stored f s.key (sys.read_file s.world)
        → Models f s

  abbrev pub filled : FileState W → Dict String → FileState W
  filled s d = record s { cache = some d; loaded = true }

  load_file-Holds :
      (f : SecretMap) (s : FileState W) (r : FileRead)
      → s.cache ≡ some []
      → Stored f s.key r
      → (d : Dict String) × (load_file sys s r ≡ (true, filled s d)) × Holds f d
  unfolding load_file
  load_file-Holds f s missing e h = ([], refl, λ k. unfold lookup in sym (h k))
  load_file-Holds f s failed e h = absurd h
  load_file-Holds f s (contents c) e (plain, d, p, q, h) = (
    d,
    ap (load_plain sys s) p
        ∙ ap (λ y. parsed_cache sys s (sys.unmarshal plain y)) e
        ∙ ap (parsed_cache sys s) q,
    h,
  )

  pub load-Holds :
      (f : SecretMap) (s : FileState W)
      → Models f s
      → (d : Dict String) × (load sys s ≡ (true, filled s d)) × Holds f d
  unfolding load
  load-Holds f s (unread l c h) =
      let r = sys.read_file s.world in
      let (d, p, q) = load_file-Holds f s r c h in
      (d, ap (λ (b : Bool). if b then (true, s) else load_file sys s r) l ∙ p, q)
  load-Holds f s (cached d l c h st) =
      let r = sys.read_file s.world in
      (
        d,
        ap (λ (b : Bool). if b then (true, s) else load_file sys s r) l
            ∙ ap {A = Option (Dict String) × Bool}
                (λ y. (true, record s { cache = y.0; loaded = y.1 })) (λ i. (c i, l i)),
        h,
      )

  pub Models-Stored :
      (f : SecretMap) (s : FileState W) → Models f s → Stored f s.key (sys.read_file s.world)
  Models-Stored f s (unread l c h) = h
  Models-Stored f s (cached d l c h st) = st

  abbrev Gets : SecretMap → String → Option String × FileState W → Type 0
  Gets f key r = (r.0 ≡ some (value_of (f key))) × Models f r.1

  got_value-Gets :
      (f : SecretMap) (key : String) (s : FileState W) (d : Dict String)
      → Holds f d
      → Stored f s.key (sys.read_file s.world)
      → Gets f key (got_value sys key (true, filled s d))
  unfolding read
  got_value-Gets f key s d h st = (ap (λ o. some (value_of o)) (h key), cached d refl refl h st)

  -- Get reports no error, returns the map's value, or the empty text where the map has none, and
  -- leaves the map as it is.
  pub get-Models :
      (f : SecretMap) (key : String) (s : FileState W)
      → Models f s
      → ((get sys key s).0 ≡ some (value_of (f key))) × Models f (get sys key s).1
  unfolding get
  get-Models f key s m =
      let (d, p, h) = load-Holds f s m in
      subst (λ y. Gets f key (got_value sys key y)) (sym p)
        (got_value-Gets f key s d h (Models-Stored f s m))

  -- The keys of a map, as a list has them.
  abbrev pub Lists : SecretMap → String → Option (List String) → Type 0
  Lists f key none = ⊥
  Lists f key (some keys) = contains keys key ≡ is_there (f key)

  keys_of_dict :
      (key : String) (d : Dict String) → contains (keys_in (some d)) key ≡ is_there (lookup key d)
  unfolding lookup
  keys_of_dict key [] = refl
  keys_of_dict key ((k, v) ∷ d) = ground (arith, keys_of_dict key d)

  pub list-Lists :
      (f : SecretMap) (key : String) (s : FileState W) → Models f s → Lists f key (list sys s).0
  unfolding list
  list-Lists f key s m =
      let (d, p, h) = load-Holds f s m in
      subst (λ y. Lists f key (listed sys y).0) (sym p) (keys_of_dict key d ∙ ap is_there (h key))
