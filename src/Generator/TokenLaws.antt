-- ===== src/Generator/TokenLaws.antt =====
-- References to secrets in pkg/generator: the placeholders leave them alone, and an entry of
-- a container refers to the shared secret instead of holding a text.
use text.Mathlib.TextLemmas.{nil-append, cons-append, append_assoc}
use Prim.Native.Char.{code}
use fi_mcp_kit.Base.{
  ◌≡◌, refl, sym, ◌∙◌, ap, String, Bool, true, false, ◌||◌, none, some, arith, cat, str_eq, eqb,
  contains, if_cases,
}
use fi_mcp_kit.Base.Text.{
  strip_prefix, has_suffix, drop_last, cut_text, contains_text, replace_text, replace_text-absent,
  has_prefix_found,
}
use fi_mcp_kit.Proxy.RefLaws.{strip_prefix-cat}
use fi_mcp_kit.Validator.DispatchLaws.{of_listed}
use fi_mcp_kit.Generator.Tokens.{Env, resolve_tokens}
use fi_mcp_kit.Generator.SecretToken.{
  token_kinds, parse_parts, parse_body, parse_secret_token, secret_var, env_var_of, k8s_env_var,
}

-- A text without the two placeholders is left as it is, in a client's files and in the cluster's, be it
-- a reference to a secret or not.
pub resolve_tokens-absent :
    (env : Env) (value repo context : String)
    → contains_text value "${repo}" ≡ false
    → contains_text value "${HOME}" ≡ false
    → resolve_tokens env value repo context ≡ value
unfolding resolve_tokens
resolve_tokens-absent env value repo context a b =
    if_cases (λ s. s ≡ value) (str_eq context "cluster") _ _
      (λ e.
        ap (replace_text "${HOME}" "/home/mcp") (replace_text-absent "${repo}" "/app" value a)
        ∙ replace_text-absent "${HOME}" "/home/mcp" value b)
      (λ e.
        ap (replace_text "${HOME}" (env.expand env.home))
          (replace_text-absent "${repo}" (env.expand repo) value a)
        ∙ replace_text-absent "${HOME}" (env.expand env.home) value b)

drop_last-brace : (s : String) → drop_last (cat s "}") ≡ s
unfolding drop_last
drop_last-brace String.[] = ap drop_last (nil-append "}")
drop_last-brace (String.◌∷◌ c String.[]) =
    ap drop_last (cons-append c "" "}" ∙ ap (λ t. String.◌∷◌ c t) (nil-append "}"))
drop_last-brace (String.◌∷◌ c (String.◌∷◌ d s)) =
    ap drop_last
      (cons-append c (String.◌∷◌ d s) "}" ∙ ap (λ t. String.◌∷◌ c t) (cons-append d s "}"))
    ∙ ap (λ t. String.◌∷◌ c t)
        (ap drop_last (sym (cons-append d s "}")) ∙ drop_last-brace (String.◌∷◌ d s))

has_suffix-brace : (s : String) → has_suffix (cat s "}") "}" ≡ true
unfolding has_suffix
has_suffix-brace String.[] = ap (λ t. has_suffix t "}") (nil-append "}")
has_suffix-brace (String.◌∷◌ c s) = rw cons-append (ground (arith, has_suffix-brace s))

abbrev has_colon : String → Bool
has_colon String.[] = false
has_colon (String.◌∷◌ c s) = eqb (code c) b':' || has_colon s

cut_text-colon :
    (s rest : String) → has_colon s ≡ false → cut_text ":" (cat s (cat ":" rest)) ≡ some (s, rest)
unfolding cut_text strip_prefix
cut_text-colon String.[] rest h = rw (nil-append, cons-append, nil-append) refl
cut_text-colon (String.◌∷◌ c s) rest h = rw cons-append (ground (arith, h, cut_text-colon s rest))

cut_text-absent : (sep s : String) → contains_text s sep ≡ false → cut_text sep s ≡ none
unfolding cut_text contains_text
cut_text-absent sep String.[] h = refl
cut_text-absent sep (String.◌∷◌ c s) h =
    ground (arith, h, has_prefix_found (String.◌∷◌ c s) sep, cut_text-absent sep s)

-- ${kind:key}
abbrev pub reference : String → String → String
reference kind key = cat "${" (cat kind (cat ":" (cat key "}")))

inner_brace :
    (kind key : String) → cat kind (cat ":" (cat key "}")) ≡ cat (cat kind (cat ":" key)) "}"
inner_brace kind key =
    ap (cat kind) (sym (append_assoc ":" key "}")) ∙ sym (append_assoc kind (cat ":" key) "}")

reference_brace :
    (kind key : String) → reference kind key ≡ cat (cat "${" (cat kind (cat ":" key))) "}"
reference_brace kind key =
    ap (cat "${") (inner_brace kind key) ∙ sym (append_assoc "${" (cat kind (cat ":" key)) "}")

parse_secret_token-reference :
    (kind key : String)
    → contains token_kinds kind ≡ true
    → str_eq key "" ≡ false
    → contains_text key ":-" ≡ false
    → parse_secret_token (reference kind key)
      ≡ some (record { kind = kind; key = key; default_value = none })
unfolding parse_secret_token
parse_secret_token-reference kind key k n d =
    let plain =
      of_listed (λ t. has_colon t ≡ false) kind token_kinds (refl, (refl, (refl, tt))) k in
    ap (λ (b : Bool). parse_body b (strip_prefix "${" (reference kind key)))
      (ap (λ s. has_suffix s "}") (reference_brace kind key)
        ∙ has_suffix-brace (cat "${" (cat kind (cat ":" key))))
    ∙ ap (parse_body true) (strip_prefix-cat "${" (cat kind (cat ":" (cat key "}"))))
    ∙ ap (λ s. parse_parts (cut_text ":" s))
        (ap drop_last (inner_brace kind key) ∙ drop_last-brace (cat kind (cat ":" key)))
    ∙ ap parse_parts (cut_text-colon kind key plain)
    ∙ rw (k, n, cut_text-absent ":-" key d) refl

-- A variable whose value is a reference ${kind:key} to a secret, of one of the three kinds, with a key
-- that is not empty and gives no default, becomes an entry that refers to that key of the shared
-- secret and has no value of its own, if the reference holds neither of the placeholders.
pub k8s_env_var-reference :
    (env : Env) (name kind key : String)
    → contains token_kinds kind ≡ true
    → str_eq key "" ≡ false
    → contains_text key ":-" ≡ false
    → contains_text (reference kind key) "${repo}" ≡ false
    → contains_text (reference kind key) "${HOME}" ≡ false
    → k8s_env_var env name (reference kind key) ≡ secret_var env name key
unfolding k8s_env_var
k8s_env_var-reference env name kind key k n d a b =
    ap (λ s. env_var_of env name s (parse_secret_token s))
      (resolve_tokens-absent env (reference kind key) "" "cluster" a b)
    ∙ ap (env_var_of env name (reference kind key)) (parse_secret_token-reference kind key k n d)
