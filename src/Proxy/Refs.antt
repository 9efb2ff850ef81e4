-- ===== src/Proxy/Refs.antt =====
-- resolveSecretRefs of pkg/proxy/proxy.go, with its three regular expressions written out.
use fi_mcp_kit.Base.{String, Option, none, some, str_eq, eqb, if◌then◌else◌}
use fi_mcp_kit.Base.Text.{strip_prefix}
use Prim.Native.Char.{code}

-- `([^}]*)\}$`: what stands before a brace that is the text's only one and its end.
unfoldable pub before_brace : String → Option String
before_brace String.[] = none
before_brace (String.◌∷◌ c s) =
    if eqb (code c) b'}'
    then (if str_eq s "" then some "" else none)
    else elim (before_brace s) [ none ↦ none | some k ↦ some (String.◌∷◌ c k) ]

-- The key is not empty.
abbrev pub non_empty : Option String → Option String
non_empty none = none
non_empty (some k) = if str_eq k "" then none else some k

abbrev pub key_behind : Option String → Option String
key_behind none = none
key_behind (some rest) = non_empty (before_brace rest)

-- The key of a reference that begins with a prefix, such as "${env:".
unfoldable pub ref_key : String → String → Option String
unfolding strip_prefix before_brace
ref_key prefix value = key_behind (strip_prefix prefix value)

abbrev pub first_ref : Option String → (String → String) → String → String
first_ref none f otherwise = otherwise
first_ref (some k) f otherwise = f k

-- `getenv` is os.Getenv, `get_value` the secret manager's GetValue.
module _ (getenv get_value : String → String) where
  unfoldable pub resolve_secret_refs : String → String
  unfolding ref_key
  resolve_secret_refs value = first_ref (ref_key "${env:" value) getenv (
      first_ref (ref_key "${secret:" value) get_value
        (first_ref (ref_key "${keychain:" value) get_value value))
