-- ===== src/Proxy/RefLaws.antt =====
-- A reference is replaced by what it refers to.
use fi_mcp_kit.Base.{
  ◌≡◌, ◌∙◌, refl, ap, String, Bool, false, ◌||◌, none, some, arith, cat, str_eq, eqb,
}
use Prim.Native.Char.{code}
use text.Mathlib.TextLemmas.{nil-append, cons-append}
use fi_mcp_kit.Base.Text.{strip_prefix}
use fi_mcp_kit.Proxy.Refs.{before_brace, non_empty, key_behind, ref_key, resolve_secret_refs}

-- No character of the text is a closing brace.
abbrev pub has_brace : String → Bool
has_brace String.[] = false
has_brace (String.◌∷◌ c s) = eqb (code c) b'}' || has_brace s

pub strip_prefix-cat : (p s : String) → strip_prefix p (cat p s) ≡ some s
unfolding strip_prefix
strip_prefix-cat String.[] s = ap some (nil-append s)
strip_prefix-cat (String.◌∷◌ d p) s = rw cons-append (ground (arith, strip_prefix-cat p s))

before_brace-cat : (k : String) → has_brace k ≡ false → before_brace (cat k "}") ≡ some k
unfolding before_brace
before_brace-cat String.[] h = refl
before_brace-cat (String.◌∷◌ c k) h = rw cons-append (ground (arith, h, before_brace-cat k))

ref_key-cat :
    (p k : String)
    → has_brace k ≡ false
    → str_eq k "" ≡ false
    → ref_key p (cat p (cat k "}")) ≡ some k
unfolding ref_key
ref_key-cat p k h n =
    ap key_behind (strip_prefix-cat p (cat k "}"))
    ∙ ap non_empty (before_brace-cat k h)
    ∙ ground (arith, n)

secret_is_no_env : (s : String) → ref_key "${env:" (cat "${secret:" s) ≡ none
unfolding ref_key strip_prefix
secret_is_no_env s = rw (cons-append, cons-append, cons-append) refl

keychain_is_no_env : (s : String) → ref_key "${env:" (cat "${keychain:" s) ≡ none
unfolding ref_key strip_prefix
keychain_is_no_env s = rw (cons-append, cons-append, cons-append) refl

keychain_is_no_secret : (s : String) → ref_key "${secret:" (cat "${keychain:" s) ≡ none
unfolding ref_key strip_prefix
keychain_is_no_secret s = rw (cons-append, cons-append, cons-append) refl

module _ (getenv get_value : String → String) where
  -- A reference ${env:key} is replaced by the variable of that name, ${secret:key} and
  -- ${keychain:key} by the manager's value of the key, for a key that is not empty and has no brace.
  pub resolve_secret_refs_lem :
      (k : String)
      → has_brace k ≡ false
      → str_eq k "" ≡ false
      → (resolve_secret_refs getenv get_value (cat "${env:" (cat k "}")) ≡ getenv k)
        × (resolve_secret_refs getenv get_value (cat "${secret:" (cat k "}")) ≡ get_value k)
        × (resolve_secret_refs getenv get_value (cat "${keychain:" (cat k "}")) ≡ get_value k)
  unfolding resolve_secret_refs
  resolve_secret_refs_lem k h n = (
    rw (ref_key-cat "${env:" k h n) refl,
    rw (secret_is_no_env (cat k "}"), ref_key-cat "${secret:" k h n) refl,
    rw
        (
          keychain_is_no_env (cat k "}"),
          keychain_is_no_secret (cat k "}"),
          ref_key-cat "${keychain:" k h n,
        )
        refl,
  )
