-- ===== src/Secrets/FileTests.antt =====
-- A disk with one file, a cipher that prefixes a nonce, and JSON for two small maps: the theorems of
-- the file backend at them.
use fi_mcp_kit.Base.{
  ℕ, zero, suc, ◌≡◌, refl, String, Bool, true, false, ◌&&◌, Option, none, some, [], ◌∷◌, length,
  str_eq, eq_iff, arith, if◌then◌else◌,
}
use fi_mcp_kit.Base.Dict.{Dict, lookup, read, insert, erase}
use fi_mcp_kit.Base.Run.{returns, panics}
use fi_mcp_kit.Secrets.FileBackend
use fi_mcp_kit.Secrets.FileBackend.{
  Bytes, Gcm, FileRead, missing, contents, System, FileState, opened, encrypt, decrypt, load_file,
  load, save, set, delete, file_backend,
}
use fi_mcp_kit.Secrets.FileLaws.{IsDisk, IsCipher, IsJson}
use fi_mcp_kit.Secrets.FileRefine.{Changes, SetRefines, backend-Refines}
use fi_mcp_kit.Secrets.FileView.{SecretMap, Models, unread, Lists, update}
use fi_mcp_kit.Secrets.FileReads.{after_reads, get-set_unsaved, file_backend-IsLawful}

-- A full disk takes no write.
record Disk : Type 0 where
  file : Option Bytes
  tmp : Bytes
  full : Bool

abbrev zeros : ℕ → Bytes
zeros zero = []
zeros (suc n) = 0 ∷ zeros n

zeros-length : (n : ℕ) → length (zeros n) ≡ n
zeros-length zero = refl
zeros-length (suc n) = ground (arith, zeros-length n)

abbrev file_of : Option Bytes → FileRead
file_of none = missing
file_of (some c) = contents c

abbrev write : Bool → Bytes → Disk → Bool × Disk
write true c d = (false, d)
write false c d = (true, record d { tmp = c })

abbrev gcm : Gcm
gcm = record {
  nonce_size = 2;
  seal = λ nonce plain. 7 ∷ plain;
  open_sealed = λ nonce c. elim c [ [] ↦ none | x ∷ plain ↦ some plain ];
}

-- {} and {"API_KEY": "v1"}.
abbrev encode : Option (Dict String) → Option Bytes
encode none = some (0 ∷ [])
encode (some []) = some (1 ∷ [])
encode (some ((k, v) ∷ [])) = if str_eq k "API_KEY" && str_eq v "v1" then some (2 ∷ []) else none
encode (some (x ∷ y ∷ d)) = none

abbrev decode : Bytes → Option (Dict String) → Bool × Option (Dict String)
decode (zero ∷ []) old = (true, none)
decode (suc zero ∷ []) old = (true, some [])
decode (suc (suc n) ∷ []) old = (true, some (("API_KEY", "v1") ∷ []))
decode _ old = (false, old)

abbrev machine : System Disk
machine = record {
  read_file = λ d. file_of d.file;
  write_tmp = λ c d. write d.full c d;
  rename_tmp = λ d. (true, record d { file = some d.tmp });
  remove_tmp = λ d. d;
  random = λ n d. (some (zeros n), d);
  new_gcm = λ key. some gcm;
  marshal = encode;
  unmarshal = decode;
}

replaced :
    (c : Bytes) (b : Bool) (w : Disk) {v u : Disk}
    → write b c w ≡ (true, v)
    → ◌≡◌ {A = Bool × Disk} (true, record v { file = some v.tmp }) (true, u)
    → file_of u.file ≡ contents c
replaced c true w h e = cc
replaced c false w h e = ground (arith, h, e)

write-file : (b : Bool) (c : Bytes) (w : Disk) → file_of (write b c w).1.file ≡ file_of w.file
write-file true c w = refl
write-file false c w = refl

machine-IsDisk : IsDisk machine
machine-IsDisk = record {
  replaces = λ c {w} h e. replaced c w.full w h e;
  write_keeps = λ c w. write-file w.full c w;
  rename_keeps = λ w h. cc;
  remove_keeps = λ w. refl;
  random_keeps = λ n w. refl;
}

machine-IsCipher : IsCipher machine
machine-IsCipher = record {
  opens = λ key nonce plain {g} e. ground (arith, e);
  random_length = λ n w {r} h. ground (arith, h, zeros-length n);
}

decodes_encoded :
    (d : Dict String) {plain : Bytes}
    → encode (some d) ≡ some plain
    → (d' : Dict String) × (decode plain (some []) ≡ (true, some d'))
      × ((k : String) → lookup k d' ≡ lookup k d)
decodes_encoded [] h = ([], ground (arith, h), λ k. refl)
decodes_encoded ((k, v) ∷ []) h =
    ((k, v) ∷ [], ground (arith, h, eq_iff k "API_KEY", eq_iff v "v1"), λ j. refl)
decodes_encoded (x ∷ y ∷ d) h = cc

machine-IsJson : IsJson machine
machine-IsJson = record { decodes = decodes_encoded }

abbrev empty_map : SecretMap
empty_map k = none

abbrev disk : Disk
disk = record { file = none; tmp = []; full = false }

abbrev fresh : FileState Disk
fresh = opened [] disk

-- The file behind that Set: the nonce, and the sealed text.
abbrev stored : Disk
stored = record { file = some (0 ∷ 0 ∷ 7 ∷ 2 ∷ []); tmp = 0 ∷ 0 ∷ 7 ∷ 2 ∷ []; full = false }

abbrev loaded_on : Disk → FileState Disk
loaded_on d = record { key = []; cache = some (("API_KEY", "v1") ∷ []); loaded = true; world = d }

writes : set machine "API_KEY" "v1" fresh ≡ returns (true, loaded_on stored)
unfolding set insert
writes = refl

reads : FileBackend.get machine "API_KEY" (opened [] stored) ≡ (some "v1", loaded_on stored)
unfolding FileBackend.get read lookup
reads = refl

deletes : (delete machine "API_KEY" (opened [] stored)).0 ≡ true
unfolding delete erase
deletes = refl

abbrev one_key : SecretMap
one_key k = if str_eq "API_KEY" k then some "v1" else none

one_key-holds : (k : String) → lookup k (("API_KEY", "v1") ∷ []) ≡ one_key k
unfolding lookup
one_key-holds k = ground arith

stored-Models : Models machine one_key (opened [] stored)
unfolding decrypt
stored-Models = unread refl refl (2 ∷ [], ("API_KEY", "v1") ∷ [], refl, refl, one_key-holds)

backend-Refines_example :
    ((FileBackend.get machine "API_KEY" (opened [] stored)).0 ≡ some "v1")
    × Models machine one_key (FileBackend.get machine "API_KEY" (opened [] stored)).1
    × Lists machine one_key "API_KEY" (FileBackend.list machine (opened [] stored)).0
    × SetRefines machine one_key "API_KEY" "v1"
        (opened [] stored)
        (set machine "API_KEY" "v1" (opened [] stored))
    × Changes machine one_key
        (update one_key "API_KEY" none)
        []
        (delete machine "API_KEY" (opened [] stored))
backend-Refines_example =
    backend-Refines machine machine-IsDisk machine-IsCipher machine-IsJson one_key "API_KEY" "v1"
      (opened [] stored) stored-Models

-- The disk is full.
abbrev full_disk : Disk
full_disk = record { file = none; tmp = []; full = true }

fails : set machine "API_KEY" "v1" (opened [] full_disk) ≡ returns (false, loaded_on full_disk)
unfolding set insert
fails = refl

get-set_unsaved_example :
    (FileBackend.get machine "API_KEY"
      (after_reads machine (some "OTHER" ∷ none ∷ []) (loaded_on full_disk))).0
    ≡ some "v1"
get-set_unsaved_example =
    get-set_unsaved machine empty_map "API_KEY" "v1" (opened [] full_disk)
      (unread refl refl (λ k. refl)) fails (some "OTHER" ∷ none ∷ [])

-- A file that holds null leaves a nil map in the cache, and Set panics.
abbrev null_file : FileState Disk
null_file = opened [] (record { file = some (0 ∷ 0 ∷ 7 ∷ 0 ∷ []); tmp = []; full = false })

null_panics : set machine "API_KEY" "v1" null_file ≡ panics
unfolding set load load_file decrypt
null_panics = refl

worked : ((file_backend machine).set "API_KEY" "v1" fresh).0 ≡ true
unfolding file_backend insert
worked = refl

file_backend-IsLawful_example :
    (file_backend machine).get "API_KEY" ((file_backend machine).set "API_KEY" "v1" fresh).1
    ≡ some "v1"
file_backend-IsLawful_example = file_backend-IsLawful machine "API_KEY" "v1" fresh worked
