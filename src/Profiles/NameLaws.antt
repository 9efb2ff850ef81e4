-- ===== src/Profiles/NameLaws.antt =====
-- The namespaced name server__tool, as GetStaticTools writes it and Filter reads it.
use fi_mcp_kit.Base.{◌≡◌, ◌∙◌, refl, ap, subst, String, false, none, some, arith, cat}
use Prim.Native.Char.{Char}
use text.Mathlib.TextLemmas.{nil-append, cons-append}
use fi_mcp_kit.Base.Text.{cut_name, has_prefix, drop_first}
use fi_mcp_kit.Registry.Query.{namespaced}
use fi_mcp_kit.Profiles.Filter.{before_cut, extract_server_name}

cut_name-none :
    (c : Char) (s : String)
    → cut_name (String.◌∷◌ c s) ≡ none
    → (has_prefix (String.◌∷◌ c s) "__" ≡ false) × (cut_name s ≡ none)
unfolding cut_name
cut_name-none c s h = (ground (arith, h), ground (arith, h))

cut_name-some :
    (c : Char) (s : String) {a b : String}
    → has_prefix (String.◌∷◌ c s) "__" ≡ false
    → cut_name s ≡ some (a, b)
    → cut_name (String.◌∷◌ c s) ≡ some (String.◌∷◌ c a, b)
unfolding cut_name
cut_name-some c s h g = ground (arith, h, g)

-- Of what stands behind a name, only a first underscore can make a pair of underscores with it.
same_prefix :
    (c : Char) (s tool : String)
    → has_prefix (String.◌∷◌ c (cat s (cat "__" tool))) "__"
      ≡ has_prefix (String.◌∷◌ c (cat s "_")) "__"
unfolding has_prefix
same_prefix c String.[] tool = rw (nil-append, cons-append) refl
same_prefix c (String.◌∷◌ d s) tool = rw (cons-append, cons-append) refl

cut_name-namespaced :
    (server tool : String)
    → cut_name (cat server "_") ≡ none
    → cut_name (namespaced server tool) ≡ some (server, tool)
unfolding cut_name has_prefix drop_first
cut_name-namespaced String.[] tool h = rw (nil-append, cons-append, cons-append, nil-append) refl
cut_name-namespaced (String.◌∷◌ c s) tool h =
    let (p, q) =
      cut_name-none c (cat s "_") (subst (λ x. cut_name x ≡ none) (cons-append c s "_") h) in
    rw cons-append (
      cut_name-some c (cat s (cat "__" tool)) (same_prefix c s tool ∙ p)
        (cut_name-namespaced s tool q))

-- The server of a namespaced name is read back where the server's name has no double underscore and
-- does not end in one that would make one with the separator.
pub extract_server_name-namespaced :
    (server tool : String)
    → cut_name (cat server "_") ≡ none
    → extract_server_name (namespaced server tool) ≡ server
unfolding extract_server_name
extract_server_name-namespaced server tool h = ap before_cut (cut_name-namespaced server tool h)
