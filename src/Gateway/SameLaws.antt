-- ===== src/Gateway/SameLaws.antt =====
-- What the handler reads of the registry does not depend on Env maps.
use fi_mcp_kit.Base.{◌≡◌, refl, sym, ◌∙◌, ap, String, Option, none, some}
use fi_mcp_kit.Base.Text.{trim_space}
use fi_mcp_kit.Registry.Types.{Registry, Server, TargetSpec, empty_spec}
use fi_mcp_kit.Registry.Spec.{merge_spec, target_entry, get_server}
use fi_mcp_kit.Registry.SpecLaws.{strip_spec, strip}
use fi_mcp_kit.Registry.StripLaws.{strip_found, same_found, effective_with, effective}
use fi_mcp_kit.Gateway.Backend.{own_url}
use fi_mcp_kit.Gateway.ToolCall.{lacks}

abbrev url_of : Option Server → String
url_of none = ""
url_of (some s) = trim_space s.url

own_url-found : (reg : Registry) (n : String) → own_url (some reg) n ≡ url_of (get_server reg n)
unfolding own_url
own_url-found reg n = go (get_server reg n)
  where
    go : (o : Option Server) → (elim o [ none ↦ "" | some s ↦ trim_space s.url ]) ≡ url_of o
    go none = refl
    go (some s) = refl

url_of-strip_found : (o : Option Server) → url_of (strip_found o) ≡ url_of o
url_of-strip_found none = refl
url_of-strip_found (some s) = refl

pub same_url :
    (n : String) (r r' : Registry) → strip r' ≡ strip r → own_url (some r') n ≡ own_url (some r) n
same_url n r r' e =
    own_url-found r' n
    ∙ sym (url_of-strip_found (get_server r' n))
    ∙ ap url_of (same_found n r r' e)
    ∙ url_of-strip_found (get_server r n)
    ∙ sym (own_url-found r n)

abbrev or_empty : Option TargetSpec → TargetSpec
or_empty c = elim c [ none ↦ empty_spec | some spec ↦ spec ]

same_tools :
    (c : Option TargetSpec) (t : Option (Option TargetSpec))
    → (effective_with (or_empty (strip_spec c)) t).tools ≡ (effective_with (or_empty c) t).tools
unfolding merge_spec
same_tools none t = refl
same_tools (some c) none = refl
same_tools (some c) (some none) = refl
same_tools (some c) (some (some src)) = refl

lacks-strip_found :
    (profile tool : String) (o : Option Server)
    → lacks (effective profile (strip_found o)) tool ≡ lacks (effective profile o) tool
lacks-strip_found profile tool none = refl
lacks-strip_found profile tool (some s) =
    ap (λ tools. lacks (some (record empty_spec { tools = tools })) tool)
      (same_tools s.common (target_entry s profile))

pub same_lacks :
    (n profile tool : String) (r r' : Registry)
    → strip r' ≡ strip r
    → lacks (effective profile (get_server r' n)) tool
      ≡ lacks (effective profile (get_server r n)) tool
same_lacks n profile tool r r' e =
    sym (lacks-strip_found profile tool (get_server r' n))
    ∙ ap (λ o. lacks (effective profile o) tool) (same_found n r r' e)
    ∙ lacks-strip_found profile tool (get_server r n)
