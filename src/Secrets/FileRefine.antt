-- ===== src/Secrets/FileRefine.antt =====
-- The backend of pkg/secrets/file.go refines a map on the disk, which a successful Set or Delete updates
-- at one key, also for a backend that is opened anew.
use fi_mcp_kit.Base.{
  ◌≡◌, refl, sym, ◌∙◌, ap, subst, String, Bool, true, false, Option, none, some, str_eq,
  if◌then◌else◌,
}
use fi_mcp_kit.Base.Dict.{Dict, insert, erase, lookup-insert, lookup-erase}
use fi_mcp_kit.Base.Run.{Run, returns, panics}
use fi_mcp_kit.Secrets.FileBackend.{
  list, Bytes, System, FileState, opened, encrypt, save, get, set, delete, write_sealed, save_plain,
  in_world, set_loaded, delete_loaded,
}
use fi_mcp_kit.Secrets.FileLaws.{
  IsDisk, IsCipher, IsJson, written_lem, encrypt_keeps, decrypt-encrypt,
}
use fi_mcp_kit.Secrets.FileView.{
  SecretMap, Holds, update, value_of, Stored, Models, unread, cached, filled, load-Holds,
  Models-Stored, get-Models, Lists, list-Lists,
}

module _ {W : Type 0} (sys : System W) where
  -- What an operation that changes the map from `f` to `g` makes of a backend. On success it stands
  -- for `g`, and so does a backend that is opened on the same file; on an error the latter stands for
  -- `f`.
  abbrev pub Changes : SecretMap → SecretMap → Bytes → Bool × FileState W → Type 0
  Changes f g key (true, t) = Models sys g t × Models sys g (opened key t.world)
  Changes f g key (false, t) = Models sys f (opened key t.world)

  abbrev pub SetRefines :
      SecretMap → String → String → FileState W → Run (Bool × FileState W) → Type 0
  SetRefines f key value s panics = ⊥
  SetRefines f key value s (returns r) = Changes f (update f key (some value)) s.key r

  abbrev SavesIn : SecretMap → Bytes → W → Bool × W → Type 0
  SavesIn g key w r =
      (r.0 ≡ true → Stored sys g key (sys.read_file r.1))
      × (r.0 ≡ false → sys.read_file r.1 ≡ sys.read_file w)

  module _ (disk : IsDisk sys) (cipher : IsCipher sys) (json : IsJson sys) where
    write_sealed-SavesIn :
        (g : SecretMap) (key : Bytes) (w : W) (d : Dict String) (plain : Bytes)
        (x : Option Bytes × W)
        → Holds g d
        → sys.marshal (some d) ≡ some plain
        → encrypt sys key plain w ≡ x
        → SavesIn g key w (write_sealed sys x)
    unfolding encrypt
    write_sealed-SavesIn g key w d plain (none, v) h m e = (
      λ t. cc,
      λ t. ap (λ y. sys.read_file y.1) (sym e) ∙ encrypt_keeps sys disk plain w (sys.new_gcm key),
    )
    write_sealed-SavesIn g key w d plain (some c, v) h m e =
        let (good, bad) = written_lem sys disk c {w = v} (sys.write_tmp c v) refl in
        let (d', q, same) = json.decodes d m in
        let opens = decrypt-encrypt sys cipher key plain w (ap (λ y. y.0) e) in
        (
          λ t. subst (Stored sys g key) (sym (good t)) (plain, d', opens, q, λ k. same k ∙ h k),
          λ t.
              bad t
              ∙ ap (λ y. sys.read_file y.1) (sym e)
              ∙ encrypt_keeps sys disk plain w (sys.new_gcm key),
        )

    save_plain-SavesIn :
        (g : SecretMap) (key : Bytes) (w : W) (d : Dict String) (o : Option Bytes)
        → Holds g d
        → sys.marshal (some d) ≡ o
        → SavesIn g key w (save_plain sys key w o)
    save_plain-SavesIn g key w d none h m = (λ t. cc, λ t. refl)
    save_plain-SavesIn g key w d (some plain) h m =
        write_sealed-SavesIn g key w d plain (encrypt sys key plain w) h m refl

    in_world-Changes :
        (f g : SecretMap) (s : FileState W) (d : Dict String) (x : Bool × W)
        → Stored sys f s.key (sys.read_file s.world)
        → Holds g d
        → SavesIn g s.key s.world x
        → Changes f g s.key (in_world sys (filled sys s d) x)
    in_world-Changes f g s d (true, w) st h (good, bad) =
        (cached d refl refl h (good refl), unread refl refl (good refl))
    in_world-Changes f g s d (false, w) st h (good, bad) =
        unread refl refl (subst (Stored sys f s.key) (sym (bad refl)) st)

    save-Changes :
        (f g : SecretMap) (s : FileState W) (d : Dict String)
        → Stored sys f s.key (sys.read_file s.world)
        → Holds g d
        → Changes f g s.key (save sys (filled sys s d))
    unfolding save
    save-Changes f g s d st h =
        in_world-Changes f g s d (save_plain sys s.key s.world (sys.marshal (some d))) st h
          (save_plain-SavesIn g s.key s.world d (sys.marshal (some d)) h refl)

    -- Set never panics on a backend that stands for a map `f`. If it works, the backend stands for `f`
    -- with the value at the key, and so does one opened anew on the file; if it reports an error, one
    -- opened anew still stands for `f`.
    pub set-Refines :
        (f : SecretMap) (key value : String) (s : FileState W)
        → Models sys f s
        → (r : Bool × FileState W) × (set sys key value s ≡ returns r)
          × Changes f (update f key (some value)) s.key r
    unfolding set
    set-Refines f key value s m =
        let (d, p, h) = load-Holds sys f s m in
        (
          save sys (filled sys s (insert key value d)),
          ap (set_loaded sys key value) p,
          save-Changes f (update f key (some value)) s (insert key value d)
              (Models-Stored sys f s m)
              (λ k.
                lookup-insert key k value d
                ∙ ap (λ o. if str_eq key k then some value else o) (h k)),
        )

    -- Delete does the same for the map without the key.
    pub delete-Refines :
        (f : SecretMap) (key : String) (s : FileState W)
        → Models sys f s
        → Changes f (update f key none) s.key (delete sys key s)
    unfolding delete
    delete-Refines f key s m =
        let (d, p, h) = load-Holds sys f s m in
        subst (λ y. Changes f (update f key none) s.key (delete_loaded sys key y)) (sym p)
          (save-Changes f (update f key none) s (erase key d) (Models-Stored sys f s m)
            (λ k. lookup-erase key k d ∙ ap (λ o. if str_eq key k then none else o) (h k)))

    -- On a disk, a cipher and JSON as documented, a backend that stands for a map from keys to values
    -- refines it. Get reports no error, returns the map's value of the key, or the empty text where it
    -- has none, and leaves the map as it is; List returns exactly the map's keys. Set does not panic.
    -- Where Set or Delete works, the backend stands for the map with the key set to the value or without
    -- it, and so does a backend that is opened anew on the file; where one reports an error, a backend
    -- opened anew still stands for the map as it was.
    pub backend-Refines :
        (f : SecretMap) (key value : String) (s : FileState W)
        → Models sys f s
        → ((get sys key s).0 ≡ some (value_of (f key)))
          × Models sys f (get sys key s).1
          × Lists sys f key (list sys s).0
          × SetRefines f key value s (set sys key value s)
          × Changes f (update f key none) s.key (delete sys key s)
    backend-Refines f key value s m =
        let (r, e, o) = set-Refines f key value s m in
        let (g, h) = get-Models sys f key s m in
        (
          g,
          h,
          list-Lists sys f key s m,
          subst (SetRefines f key value s) (sym e) o,
          delete-Refines f key s m,
        )
