-- ===== src/Secrets/FileReads.antt =====
-- What Get returns behind a Set of the same backend of pkg/secrets/file.go, whether the file could be
-- written or not, and what a file that holds no map does to Set.
use fi_mcp_kit.Base.{
  ◌≡◌, refl, sym, ◌∙◌, ap, subst, String, Bool, true, false, Option, none, some, List, [], ◌∷◌,
  arith, eq_refl, if_cases,
}
use fi_mcp_kit.Base.Dict.{Dict, read, insert, read-insert}
use fi_mcp_kit.Base.Run.{Run, returns, panics}
use fi_mcp_kit.Secrets.StoreLaws.{IsLawful}
use fi_mcp_kit.Secrets.FileBackend.{
  Bytes, FileRead, missing, failed, contents, System, FileState, decrypt, load_file, load, save,
  get, list, set, put_value, set_loaded, in_world, save_plain, file_backend, or_ends, load_plain,
}
use fi_mcp_kit.Secrets.FileView.{SecretMap, Models, load-Holds}

returns_inj : {A : Type 0} {a b : A} → returns a ≡ returns b → a ≡ b
returns_inj h = cc

module _ {W : Type 0} (sys : System W) where
  abbrev MarksLoaded : Bool × FileState W → Type 0
  MarksLoaded r = r.0 ≡ true → r.1.loaded ≡ true

  load_plain-MarksLoaded : (s : FileState W) (o : Option Bytes) → MarksLoaded (load_plain sys s o)
  load_plain-MarksLoaded s none h = cc
  load_plain-MarksLoaded s (some plain) h = h

  load_file-MarksLoaded : (s : FileState W) (r : FileRead) → MarksLoaded (load_file sys s r)
  unfolding load_file
  load_file-MarksLoaded s missing h = refl
  load_file-MarksLoaded s failed h = cc
  load_file-MarksLoaded s (contents c) h = load_plain-MarksLoaded s (decrypt sys s.key c) h

  load-MarksLoaded : (s : FileState W) → MarksLoaded (load sys s)
  unfolding load
  load-MarksLoaded s =
      if_cases MarksLoaded s.loaded _ _ (λ e h. e)
        (λ e. load_file-MarksLoaded s (sys.read_file s.world))

  -- A backend that is loaded answers from its cache.
  get_cached :
      (key : String) (s : FileState W) (d : Dict String)
      → s.loaded ≡ true
      → s.cache ≡ some d
      → (get sys key s).0 ≡ some (read "" key d)
  unfolding get load
  get_cached key s d l c = ground (arith, l, c)

  -- What Set saves is in the cache, whatever became of the file.
  get_saved :
      (key value : String) (s : FileState W) (d : Dict String)
      → s.loaded ≡ true
      → (get sys key (save sys (record s { cache = some (insert key value d) })).1).0 ≡ some value
  unfolding save
  get_saved key value s d l =
      let t : FileState W = record s { cache = some (insert key value d) } in
      let x = save_plain sys t.key t.world (sys.marshal t.cache) in
      get_cached key (in_world sys t x).1 (insert key value d) l refl
      ∙ ap some (rw (read-insert, eq_refl))

  abbrev Reads : String → String → Run (Bool × FileState W) → Type 0
  Reads key value panics = Unit
  Reads key value (returns r) = r.0 ≡ true → (get sys key r.1).0 ≡ some value

  put_value-Reads :
      (key value : String) (s : FileState W) (c : Option (Dict String))
      → s.loaded ≡ true
      → Reads key value (put_value sys key value s c)
  put_value-Reads key value s none l = tt
  put_value-Reads key value s (some d) l = λ h. get_saved key value s d l

  set_loaded-Reads :
      (key value : String) (x : Bool × FileState W)
      → MarksLoaded x
      → Reads key value (set_loaded sys key value x)
  set_loaded-Reads key value (false, s) m = λ h. cc
  set_loaded-Reads key value (true, s) m = put_value-Reads key value s s.cache (m refl)

  or_ends-Reads :
      (key value : String) (s : FileState W) (x : Run (Bool × FileState W))
      → Reads key value x
      → (or_ends sys s x).0 ≡ true
      → (get sys key (or_ends sys s x).1).0 ≡ some value
  or_ends-Reads key value s panics r h = cc
  or_ends-Reads key value s (returns y) r h = r h

  -- The file backend meets what the manager needs of a writable backend, on any file system, cipher
  -- and JSON: where its Set reports no error, a Get of the key returns the value.
  pub file_backend-IsLawful : IsLawful (file_backend sys)
  unfolding file_backend set
  file_backend-IsLawful key value s h =
      or_ends-Reads key value s (set sys key value s)
        (set_loaded-Reads key value (load sys s) (load-MarksLoaded s)) h

  -- The backend behind some reads: a Get of a key, or List.
  abbrev pub after_reads : List (Option String) → FileState W → FileState W
  after_reads [] s = s
  after_reads (some k ∷ reads) s = after_reads reads (get sys k s).1
  after_reads (none ∷ reads) s = after_reads reads (list sys s).1

  get_keeps : (k : String) (s : FileState W) → s.loaded ≡ true → (get sys k s).1 ≡ s
  unfolding get load
  get_keeps k s l = ground (arith, l)

  list_keeps : (s : FileState W) → s.loaded ≡ true → (list sys s).1 ≡ s
  unfolding list load
  list_keeps s l = ground (arith, l)

  reads_keep :
      (reads : List (Option String)) (s : FileState W) → s.loaded ≡ true → after_reads reads s ≡ s
  reads_keep [] s l = refl
  reads_keep (some k ∷ reads) s l = ap (after_reads reads) (get_keeps k s l) ∙ reads_keep reads s l
  reads_keep (none ∷ reads) s l = ap (after_reads reads) (list_keeps s l) ∙ reads_keep reads s l

  saved_loaded :
      (c : Option (Dict String)) (s : FileState W)
      → s.loaded ≡ true
      → (save sys (record s { cache = c })).1.loaded ≡ true
  unfolding save
  saved_loaded c s l = l

  -- Also where Set reports an error, since the file could not be written, a backend that stands for a
  -- map returns the new value, behind any number of Gets and Lists.
  pub get-set_unsaved :
      (f : SecretMap) (key value : String) (s : FileState W) {t : FileState W}
      → Models sys f s
      → set sys key value s ≡ returns (false, t)
      → (reads : List (Option String)) → (get sys key (after_reads reads t)).0 ≡ some value
  unfolding set
  get-set_unsaved f key value s m h reads =
      let (d, p, q) = load-Holds sys f s m in
      let t : FileState W = record s { cache = some d; loaded = true } in
      let e = sym (ap (set_loaded sys key value) p) ∙ h in
      let u = (save sys (record t { cache = some (insert key value d) })).1 in
      subst (λ y. (get sys key (after_reads reads y.1)).0 ≡ some value) (returns_inj e)
        (ap (λ (y : FileState W). (get sys key y).0)
            (reads_keep reads u (saved_loaded (some (insert key value d)) t refl))
          ∙ get_saved key value t d refl)
