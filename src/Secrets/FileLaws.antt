-- ===== src/Secrets/FileLaws.antt =====
-- pkg/secrets/file.go refines a map from keys to values that lies on the disk: what each method
-- does to that map, whether it works or reports an error.
use fi_mcp_kit.Base.{
  ℕ, ◌≡◌, refl, sym, ◌∙◌, ap, subst, String, Bool, true, false, Option, none, some, [], ◌∷◌, ◌++◌,
  length, take, ltb, arith, if◌then◌else◌,
}
use fi_mcp_kit.Base.Dict.{Dict, lookup}
use fi_mcp_kit.Secrets.FileBackend.{
  Bytes, Gcm, contents, System, drop, encrypt, decrypt, sealed, decrypt_under, encrypt_under,
  renamed, written,
}

-- Documented behaviour of the file system: a file written beside the path and renamed onto it is
-- what the path reads then; nothing else that the backend does changes what the path reads.
pub record IsDisk {W : Type 0} (sys : System W) : Type 0 where
  pub replaces :
      (c : Bytes) {w v u : W}
      → sys.write_tmp c w ≡ (true, v)
      → sys.rename_tmp v ≡ (true, u)
      → sys.read_file u ≡ contents c
  pub write_keeps : (c : Bytes) (w : W) → sys.read_file (sys.write_tmp c w).1 ≡ sys.read_file w
  pub rename_keeps :
      (w : W) → (sys.rename_tmp w).0 ≡ false → sys.read_file (sys.rename_tmp w).1 ≡ sys.read_file w
  pub remove_keeps : (w : W) → sys.read_file (sys.remove_tmp w) ≡ sys.read_file w
  pub random_keeps : (n : ℕ) (w : W) → sys.read_file (sys.random n w).1 ≡ sys.read_file w

-- Documented behaviour of crypto/cipher and crypto/rand.
pub record IsCipher {W : Type 0} (sys : System W) : Type 0 where
  pub opens :
      (key nonce plain : Bytes) {g : Gcm}
      → sys.new_gcm key ≡ some g
      → g.open_sealed nonce (g.seal nonce plain) ≡ some plain
  pub random_length : (n : ℕ) (w : W) {r : Bytes} → (sys.random n w).0 ≡ some r → length r ≡ n

-- Documented behaviour of encoding/json: a map that was encoded decodes to a map with the same
-- entries.
pub record IsJson {W : Type 0} (sys : System W) : Type 0 where
  pub decodes :
      (d : Dict String) {plain : Bytes}
      → sys.marshal (some d) ≡ some plain
      → (d' : Dict String) × (sys.unmarshal plain (some []) ≡ (true, some d'))
        × ((k : String) → lookup k d' ≡ lookup k d)

pub some_inj {ℓ} : {A : Type ℓ} {a b : A} → some a ≡ some b → a ≡ b
some_inj h = cc

take_append : (r xs : Bytes) → take (length r) (r ++ xs) ≡ r
take_append [] xs = refl
take_append (x ∷ r) xs = ap (λ t. x ∷ t) (take_append r xs)

drop_append : (r xs : Bytes) → drop (length r) (r ++ xs) ≡ xs
drop_append [] xs = refl
drop_append (x ∷ r) xs = drop_append r xs

not_shorter : (r xs : Bytes) → ltb (length (r ++ xs)) (length r) ≡ false
not_shorter [] xs = ground arith
not_shorter (x ∷ r) xs = ground (arith, not_shorter r xs)

module _ {W : Type 0} (sys : System W) where
  pub sealed_opens :
      IsCipher sys
      → (key plain : Bytes) {g : Gcm} {c : Bytes} (x : Option Bytes × W) → sys.new_gcm key ≡ some g
      → ((r : Bytes) → x.0 ≡ some r → length r ≡ g.nonce_size)
      → (sealed sys g plain x).0 ≡ some c
      → decrypt_under sys (some g) c ≡ some plain
  sealed_opens law key plain (none, w) e n h = cc
  sealed_opens law key plain {g} (some r, w) e n h =
      let body = g.seal r plain in
      subst (λ y. decrypt_under sys (some g) y ≡ some plain) (some_inj h)
        (subst
          (λ m.
            (if ltb (length (r ++ body)) m
              then none
              else g.open_sealed (take m (r ++ body)) (drop m (r ++ body)))
            ≡ some plain)
          (n r refl)
          (rw (not_shorter r body, take_append r body, drop_append r body)
            (law.opens key r plain e)))

  pub encrypt_opens :
      IsCipher sys
      → (key plain : Bytes) (w : W) {c : Bytes} (o : Option Gcm) → sys.new_gcm key ≡ o
      → (encrypt_under sys o plain w).0 ≡ some c
      → decrypt_under sys o c ≡ some plain
  encrypt_opens law key plain w none e h = cc
  encrypt_opens law key plain w (some g) e h =
      sealed_opens law key plain (sys.random g.nonce_size w) e
        (λ r. law.random_length g.nonce_size w) h

  -- Decryption gives back what encryption under the same key made of a text, with whatever nonce.
  pub decrypt-encrypt :
      IsCipher sys
      → (key plain : Bytes) (w : W) {c : Bytes} → (encrypt sys key plain w).0 ≡ some c
      → decrypt sys key c ≡ some plain
  unfolding encrypt decrypt
  decrypt-encrypt law key plain w h = encrypt_opens law key plain w (sys.new_gcm key) refl h

  sealed_keeps :
      IsDisk sys → (g : Gcm) (plain : Bytes) (x : Option Bytes × W) → (sealed sys g plain x).1 ≡ x.1
  sealed_keeps disk g plain (none, w) = refl
  sealed_keeps disk g plain (some r, w) = refl

  pub encrypt_keeps :
      IsDisk sys
      → (plain : Bytes) (w : W) (o : Option Gcm)
      → sys.read_file (encrypt_under sys o plain w).1 ≡ sys.read_file w
  encrypt_keeps disk plain w none = refl
  encrypt_keeps disk plain w (some g) =
      ap sys.read_file (sealed_keeps disk g plain (sys.random g.nonce_size w))
      ∙ disk.random_keeps g.nonce_size w

  -- What a write of `c` makes of the file: on success its contents, otherwise nothing.
  abbrev pub Writes : Bytes → W → Bool × W → Type 0
  Writes c w r =
      (r.0 ≡ true → sys.read_file r.1 ≡ contents c)
      × (r.0 ≡ false → sys.read_file r.1 ≡ sys.read_file w)

  renamed_lem :
      IsDisk sys
      → (c : Bytes) {w v : W} (x : Bool × W) → sys.write_tmp c w ≡ (true, v)
      → sys.rename_tmp v ≡ x
      → Writes c w (renamed sys x)
  renamed_lem disk c (true, u) e h = (λ t. disk.replaces c e h, λ t. cc)
  renamed_lem disk c {w} {v} (false, u) e h = (
    λ t. cc,
    λ t.
        disk.remove_keeps u
        ∙ ap (λ y. sys.read_file y.1) (sym h)
        ∙ disk.rename_keeps v (ap (λ y. y.0) h)
        ∙ ap (λ y. sys.read_file y.1) (sym e)
        ∙ disk.write_keeps c w,
  )

  pub written_lem :
      IsDisk sys
      → (c : Bytes) {w : W} (x : Bool × W) → sys.write_tmp c w ≡ x
      → Writes c w (written sys x)
  written_lem disk c (true, v) e = renamed_lem disk c (sys.rename_tmp v) e refl
  written_lem disk c {w} (false, v) e =
      (λ t. cc, λ t. ap (λ y. sys.read_file y.1) (sym e) ∙ disk.write_keeps c w)
