-- ===== src/Secrets/Store.antt =====
-- The interface Backend and the Manager of pkg/secrets/store.go. All backends act on one world `S`: the
-- environment, files, and what a keychain or a server holds.
use fi_mcp_kit.Base.{
  String, Bool, Option, none, some, List, [], ◌∷◌, ◌++◌, str_eq, contains, if◌then◌else◌,
}

-- An error of Get or List is nothing; Set and Delete return whether they worked.
pub record Backend (S : Type 0) : Type 0 where
  pub name : String
  pub read_only : Bool
  pub get : String → S → Option String
  pub list : S → Option (List String)
  pub set : String → String → S → Bool × S
  pub delete : String → S → Bool × S

pub record Manager (S : Type 0) : Type 0 where
  pub backends : List (Backend S)
  pub primary : Option (Backend S)

-- A value that is there and not empty.
abbrev pub usable : Option String → Option String
usable none = none
usable (some v) = if str_eq v "" then none else some v

abbrev pub value_or_empty : Option (String × String) → String
value_or_empty none = ""
value_or_empty (some (v, n)) = v

pub data SetResult : Type 0 where
  done no_writable_backend backend_error : SetResult

-- The inner loop of List; `seen` holds exactly the keys taken.
unfoldable pub add_keys : List String → List String → List String
add_keys [] keys = keys
add_keys (k ∷ ks) keys = add_keys ks (if contains keys k then keys else keys ++ (k ∷ []))

abbrev pub keys_of : Option (List String) → List String
keys_of none = []
keys_of (some ks) = ks

module _ {S : Type 0} where
  unfoldable pub first_writable : List (Backend S) → Option (Backend S)
  first_writable [] = none
  first_writable (b ∷ rest) = if b.read_only then first_writable rest else some b

  unfoldable pub new_manager : List (Backend S) → Manager S
  unfolding first_writable
  new_manager backends = record { backends = backends; primary = first_writable backends }

  -- The value and the backend's name, or ErrNotFound.
  unfoldable pub get_from : String → S → List (Backend S) → Option (String × String)
  get_from key w [] = none
  get_from key w (b ∷ rest) =
      let later = get_from key w rest in
      elim (usable (b.get key w)) [ none ↦ later | some v ↦ some (v, b.name) ]

  unfoldable pub get : String → Manager S → S → Option (String × String)
  unfolding get_from
  get key m w = get_from key w m.backends

  unfoldable pub get_value : String → Manager S → S → String
  get_value key m w = value_or_empty (get key m w)

  abbrev pub result_of : Bool × S → SetResult × S
  result_of (ok, w) = (if ok then done else backend_error, w)

  unfoldable pub set : String → String → Manager S → S → SetResult × S
  set key value m w = elim m.primary [
    | none ↦ (no_writable_backend, w)
    | some b ↦ result_of (b.set key value w)
  ]

  unfoldable pub delete : String → Manager S → S → SetResult × S
  delete key m w = elim m.primary [
    | none ↦ (no_writable_backend, w)
    | some b ↦ result_of (b.delete key w)
  ]

  unfoldable pub list_from : S → List (Backend S) → List String → List String
  unfolding add_keys
  list_from w [] keys = keys
  list_from w (b ∷ rest) keys = list_from w rest (add_keys (keys_of (b.list w)) keys)

  unfoldable pub list : Manager S → S → List String
  unfolding list_from
  list m w = list_from w m.backends []
