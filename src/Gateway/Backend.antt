-- ===== src/Gateway/Backend.antt =====
-- backendURL and validateBackendURL of pkg/gateway/hub.go. `scheme_of` stands for url.Parse, as far as
-- the scheme of the result: nothing is the parser's error.
use fi_mcp_kit.Base.{ℕ, zero, suc, String, ◌||◌, Option, none, some, str_eq, cat, if◌then◌else◌}
use fi_mcp_kit.Base.Text.{has_prefix, trim_space}
use fi_mcp_kit.Registry.Types.{Registry}
use fi_mcp_kit.Registry.Spec.{get_server}

pub data UrlError : Type 0 where
  parse_failed : UrlError
  invalid_scheme : String → UrlError

pub data Backend : Type 0 where
  found : String → Backend
  no_backend : UrlError → Backend

-- strings.ReplaceAll(s, "{server}", name); the number counts the characters of a match still to pass.
replace_from : ℕ → String → String → String
unfolding has_prefix
replace_from n name String.[] = ""
replace_from (suc n) name (String.◌∷◌ c s) = replace_from n name s
replace_from zero name (String.◌∷◌ c s) =
    let replaced = replace_from 7 name s in
    let kept = replace_from 0 name s in
    if has_prefix (String.◌∷◌ c s) "{server}" then cat name replaced else String.◌∷◌ c kept

unfoldable pub replace_server : String → String → String
unfolding replace_from
replace_server template name = replace_from 0 name template

unfoldable pub check_scheme : String → Option String → Backend
check_scheme u none = no_backend parse_failed
check_scheme u (some scheme) =
    if str_eq scheme "ws" || str_eq scheme "wss"
    then found u
    else no_backend (invalid_scheme scheme)

unfoldable pub own_url : Option Registry → String → String
own_url none n = ""
own_url (some reg) n = elim (get_server reg n) [ none ↦ "" | some s ↦ trim_space s.url ]

module _ (scheme_of : String → Option String) where
  unfoldable pub validate_backend_url : String → Backend
  unfolding check_scheme
  validate_backend_url u = check_scheme u (scheme_of u)

  unfoldable pub url_for : String → String → String → Backend
  unfolding validate_backend_url replace_server
  url_for own template n =
      if str_eq own ""
      then validate_backend_url
          (replace_server (if str_eq template "" then "ws://{server}:8080/ws" else template) n)
      else validate_backend_url own

  unfoldable pub backend_url : String → Option Registry → String → Backend
  unfolding url_for own_url
  backend_url template reg n = url_for (own_url reg n) (trim_space template) n
