-- ===== src/Gateway/AuthLaws.antt =====
-- Who is let in by a token, and by a chain of hooks.
use fi_mcp_kit.Base.{
  ◌≡◌, ◌≢◌, ◌↔◌, ◌⊎◌, inl, inr, ◌∙◌, refl, sym, ap, String, true, false, Option, none, some, List,
  [], ◌∷◌, arith, All, str_eq, eq_iff, cat, if◌then◌else◌, Bool-cases,
}
use text.Mathlib.TextLemmas.{append_inj, cons-append}
use fi_mcp_kit.Base.Text.{has_prefix}
use fi_mcp_kit.Gateway.Auth.{
  invalid_or_missing_token, presented, with_scheme, token_authenticate, Connect, accepts, rejects,
  newer, connect_from, chain_connect,
}

has_prefix-cat : (p s : String) → has_prefix (cat p s) p ≡ true
unfolding has_prefix
has_prefix-cat String.[] s = has_nothing (cat "" s)
  where
    has_nothing : (t : String) → has_prefix t "" ≡ true
    has_nothing String.[] = refl
    has_nothing (String.◌∷◌ c t) = refl
has_prefix-cat (String.◌∷◌ c p) s = rw cons-append (ground (arith, has_prefix-cat p s))

-- TokenAuthenticator lets a request in exactly if what it presents is "Bearer " with the token, or is
-- the token itself and does not begin with "Bearer ".
pub token_authenticate_lem :
    (token header query : String)
    → (token_authenticate token header query ≡ none) ↔ (
        (presented header query ≡ cat "Bearer " token)
        ⊎ ((has_prefix (presented header query) "Bearer " ≡ false)
            × (presented header query ≡ token)))
unfolding token_authenticate
token_authenticate_lem token header query =
    (there (presented header query), back (presented header query))
  where
    there :
        (t : String)
        → (if str_eq (with_scheme t) (cat "Bearer " token)
            then none
            else some invalid_or_missing_token)
          ≡ none
        → (t ≡ cat "Bearer " token) ⊎ ((has_prefix t "Bearer " ≡ false) × (t ≡ token))
    there t h = elim (Bool-cases (has_prefix t "Bearer ")) [
      | inl b ↦ inl (ground (arith, h, b, eq_iff t (cat "Bearer " token)))
      | inr b ↦
          let same : cat "Bearer " t ≡ cat "Bearer " token =
            ground (arith, h, b, eq_iff (cat "Bearer " t) (cat "Bearer " token)) in
          inr (b, (append_inj same refl).1)
    ]

    back :
        (t : String)
        → (t ≡ cat "Bearer " token) ⊎ ((has_prefix t "Bearer " ≡ false) × (t ≡ token))
        → (if str_eq (with_scheme t) (cat "Bearer " token)
            then none
            else some invalid_or_missing_token)
          ≡ none
    back t (inl p) =
        let q : has_prefix t "Bearer " ≡ true =
          ap (λ x. has_prefix x "Bearer ") p ∙ has_prefix-cat "Bearer " token in
        ground (arith, q, p, eq_iff t (cat "Bearer " token))
    back t (inr (b, p)) =
        ground (arith, b, ap (cat "Bearer ") p, eq_iff (cat "Bearer " t) (cat "Bearer " token))

-- A hook that lets the request in.
abbrev pub Admits : {C E Q : Type 0} → Q → (Q → Connect C E) → Type 0
Admits {C} q hook = (c : Option C) × (hook q ≡ accepts c)

abbrev pub Accepted : {C E : Type 0} → Connect C E → Type 0
Accepted {C} x = (c : Option C) × (x ≡ accepts c)

wrong : {C E : Type 0} {r : E} {c : Option C} → ◌≢◌ {A = Connect C E} (rejects r) (accepts c)
wrong p = cc

module _ {C E Q : Type 0} where
  connect_from_lem :
      (last : Option C) (hooks : List (Q → Connect C E)) (q : Q)
      → Accepted (connect_from last hooks q) ↔ All (Admits q) hooks
  unfolding connect_from
  connect_from_lem last [] q = (λ h. tt, λ h. (last, refl))
  connect_from_lem last (hook ∷ hooks) q = step (hook q) refl (λ l. connect_from_lem l hooks q)
    where
      step :
          (x : Connect C E)
          → hook q ≡ x
          → ((l : Option C) → Accepted (connect_from l hooks q) ↔ All (Admits q) hooks)
          → Accepted (elim x [
            | accepts found ↦ connect_from (newer last found) hooks q
            | rejects e ↦ rejects e
          ])
            ↔ (Admits q hook × All (Admits q) hooks)
      step (accepts found) e ih =
          (λ h. ((found, e), (ih (newer last found)).0 h), λ h. (ih (newer last found)).1 h.1)
      step (rejects r) e ih = (λ h. absurd (wrong h.1), λ h. absurd (wrong (sym e ∙ h.0.1)))

  -- A chain of hooks lets a request in exactly if every hook does.
  pub chain_connect_lem :
      (hooks : List (Q → Connect C E)) (q : Q)
      → Accepted (chain_connect hooks q) ↔ All (Admits q) hooks
  unfolding chain_connect
  chain_connect_lem hooks q = connect_from_lem none hooks q
