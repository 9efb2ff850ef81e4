-- ===== src/Secrets/StoreLaws.antt =====
-- Which value Get returns, which keys List returns, and what Set writes for a later Get.
use fi_mcp_kit.Base.{
  ◌≤◌, ◌≡◌, ◌∙◌, refl, sym, ap, inl, inr, String, Bool, true, false, ◌||◌, none, some, List, [],
  ◌∷◌, ◌++◌, arith, All, str_eq, eq_iff, contains, count_if-append, contains-append, times,
  times_absent, Bool-cases,
}
use fi_mcp_kit.Secrets.Store.{
  Backend, Manager, first_writable, new_manager, usable, get_from, get, done, result_of, set,
  add_keys, keys_of, list_from, list,
}

add_keys_lem :
    (k : String) (ks keys : List String)
    → (contains (add_keys ks keys) k ≡ (contains keys k || contains ks k))
      × (times k keys ≤ 1 → times k (add_keys ks keys) ≤ 1)
unfolding add_keys
add_keys_lem k [] keys = (ground arith, λ h. h)
add_keys_lem k (x ∷ ks) keys = elim (Bool-cases (contains keys x)) [
  | inl old ↦
      let (p, q) = add_keys_lem k ks keys in simp old (ground (arith, p, old, eq_iff x k), q)
  | inr new ↦
      let (p, q) = add_keys_lem k ks (keys ++ (x ∷ [])) in
      simp new (
        ground (arith, p, contains-append k x keys, eq_iff x k),
        λ h. q (
            ground (
              arith,
              h,
              new,
              eq_iff x k,
              times_absent k keys,
              count_if-append (λ y. str_eq y k) keys (x ∷ []),
            )),
      )
]

module _ {S : Type 0} where
  -- A backend that has no value for the key, or an empty one, or an error.
  abbrev pub Lacks : String → S → Backend S → Type 0
  Lacks key w b = usable (b.get key w) ≡ none

  get_from-past :
      (key : String) (w : S) (before rest : List (Backend S))
      → All (Lacks key w) before
      → get_from key w (before ++ rest) ≡ get_from key w rest
  unfolding get_from
  get_from-past key w [] rest h = refl
  get_from-past key w (b ∷ before) rest h = ground (arith, h.0, get_from-past key w before rest h.1)

  -- Some backend of a list lists the key.
  abbrev pub listed : String → S → List (Backend S) → Bool
  listed k w [] = false
  listed k w (b ∷ rest) = contains (keys_of (b.list w)) k || listed k w rest

  list_from_lem :
      (k : String) (w : S) (bs : List (Backend S)) (keys : List String)
      → (contains (list_from w bs keys) k ≡ (contains keys k || listed k w bs))
        × (times k keys ≤ 1 → times k (list_from w bs keys) ≤ 1)
  unfolding list_from
  list_from_lem k w [] keys = (ground arith, λ h. h)
  list_from_lem k w (b ∷ bs) keys =
      let (p, q) = add_keys_lem k (keys_of (b.list w)) keys in
      let (r, s) = list_from_lem k w bs (add_keys (keys_of (b.list w)) keys) in
      (ground (arith, p, r), λ h. s (q h))

  -- List returns exactly the keys that some backend lists without an error, each once.
  pub list_lem :
      (k : String) (m : Manager S) (w : S)
      → (contains (list m w) k ≡ listed k w m.backends) × (times k (list m w) ≤ 1)
  unfolding list
  list_lem k m w = let (p, q) = list_from_lem k w m.backends [] in (p, q (omega arith))

  first_writable-past :
      (before after : List (Backend S)) (b : Backend S)
      → All (λ x. x.read_only ≡ true) before
      → b.read_only ≡ false
      → first_writable (before ++ (b ∷ after)) ≡ some b
  unfolding first_writable
  first_writable-past [] after b h e = ground (arith, e)
  first_writable-past (x ∷ before) after b h e =
      ground (arith, h.0, first_writable-past before after b h.1 e)

  -- A backend whose Get sees what its Set wrote, where that worked.
  abbrev pub IsLawful : Backend S → Type 0
  IsLawful b =
      (key value : String) (w : S)
      → (b.set key value w).0 ≡ true
      → b.get key (b.set key value w).1 ≡ some value

  done_result : (x : Bool × S) {w : S} → result_of x ≡ (done, w) → (x.0 ≡ true) × (x.1 ≡ w)
  done_result x e = (ground (arith, e), ap (λ y. y.1) e)

  set_of_primary :
      (key value : String) (m : Manager S) (w : S) {b : Backend S}
      → m.primary ≡ some b
      → set key value m w ≡ result_of (b.set key value w)
  unfolding set
  set_of_primary key value m w e = rw e refl

  get_here :
      (key value : String) (w : S) (b : Backend S) (after : List (Backend S))
      → str_eq value "" ≡ false
      → b.get key w ≡ some value
      → get_from key w (b ∷ after) ≡ some (value, b.name)
  unfolding get_from
  get_here key value w b after n e = ground (arith, e, n)

  -- Set writes to the first backend that is not read-only. If that backend is lawful and reports no
  -- error, a Get behind it finds the value there, unless the value is empty or a backend of higher
  -- priority has one of its own.
  pub get-set :
      (before after : List (Backend S)) (b : Backend S) (key value : String) (w : S) {w' : S}
      → All (λ x. x.read_only ≡ true) before
      → b.read_only ≡ false
      → IsLawful b
      → str_eq value "" ≡ false
      → set key value (new_manager (before ++ (b ∷ after))) w ≡ (done, w')
      → All (Lacks key w') before
      → get key (new_manager (before ++ (b ∷ after))) w' ≡ some (value, b.name)
  unfolding new_manager get
  get-set before after b key value w {w'} r u law n e l =
      let m = new_manager (before ++ (b ∷ after)) in
      let p = first_writable-past before after b r u in
      let (ok, same) = done_result (b.set key value w) (sym (set_of_primary key value m w p) ∙ e) in
      get_from-past key w' before (b ∷ after) l
      ∙ get_here key value w' b after n (ap (λ x. b.get key x) (sym same) ∙ law key value w ok)
