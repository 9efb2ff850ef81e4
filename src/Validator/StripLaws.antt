-- ===== src/Validator/StripLaws.antt =====
-- What stripNonRE2Patterns of pkg/validator/schema.go leaves of a schema.
use fi_mcp_kit.Base.{
  ◌≡◌, refl, subst, ◌∙◌, ap, String, Bool, true, false, not, ◌&&◌, arith, str_eq, if◌then◌else◌,
  if_cases,
}
use fi_mcp_kit.Base.Text.{contains_text}
use fi_mcp_kit.Base.Value.{
  Value, nil_value, str, number, truth, object, array, Members, no_members, with_member, Elements,
  no_elements, with_element,
}
use fi_mcp_kit.Validator.Json.{is_lookaround, strip_patterns, strip_members, strip_elements}

-- A text with "(?" in it.
abbrev pub has_group : Value → Bool
has_group (str p) = contains_text p "(?"
has_group _ = false

same_group : (v : Value) → is_lookaround v ≡ has_group v
same_group (object m) = refl
same_group (array vs) = refl
same_group nil_value = refl
same_group (str s) = refl
same_group (number n) = refl
same_group (truth b) = refl

-- Nowhere in the value is a key "pattern" with a text that has a group beginning "(?".
abbrev mutual
  pub is_clean : Value → Bool
  is_clean (object m) = are_clean m
  is_clean (array vs) = all_clean vs
  is_clean v = true

  pub are_clean : Members → Bool
  are_clean no_members = true
  are_clean (with_member k v m) =
      not (str_eq k "pattern" && has_group v) && is_clean v && are_clean m

  pub all_clean : Elements → Bool
  all_clean no_elements = true
  all_clean (with_element v vs) = is_clean v && all_clean vs

lookaround-strip_patterns : (v : Value) → is_lookaround (strip_patterns v) ≡ is_lookaround v
unfolding strip_patterns
lookaround-strip_patterns (object m) = refl
lookaround-strip_patterns (array vs) = refl
lookaround-strip_patterns nil_value = refl
lookaround-strip_patterns v = refl

kept_clean :
    (k : String) (v : Value) (m : Members)
    → is_clean (strip_patterns v) ≡ true
    → are_clean (strip_members m) ≡ true
    → are_clean (
        if str_eq k "pattern" && is_lookaround v
        then strip_members m
        else with_member k (strip_patterns v) (strip_members m))
      ≡ true
kept_clean k v m p q =
    if_cases (λ n. are_clean n ≡ true) (str_eq k "pattern" && is_lookaround v) _ _ (λ e. q)
      (λ e. ground (arith, e, p, q, lookaround-strip_patterns v, same_group (strip_patterns v)))

mutual
  unfolding strip_patterns

  is_clean-strip_patterns : (v : Value) → is_clean (strip_patterns v) ≡ true
  is_clean-strip_patterns (object m) = are_clean-strip_patterns m
  is_clean-strip_patterns (array vs) = all_clean-strip_patterns vs
  is_clean-strip_patterns nil_value = refl
  is_clean-strip_patterns (str s) = refl
  is_clean-strip_patterns (number n) = refl
  is_clean-strip_patterns (truth b) = refl

  are_clean-strip_patterns : (m : Members) → are_clean (strip_members m) ≡ true
  are_clean-strip_patterns no_members = refl
  are_clean-strip_patterns (with_member k v m) =
      kept_clean k v m (is_clean-strip_patterns v) (are_clean-strip_patterns m)

  all_clean-strip_patterns : (vs : Elements) → all_clean (strip_elements vs) ≡ true
  all_clean-strip_patterns no_elements = refl
  all_clean-strip_patterns (with_element v vs) =
      ground (arith, is_clean-strip_patterns v, all_clean-strip_patterns vs)

and_parts : (a b c : Bool) → (not a && b && c) ≡ true → (a ≡ false) × (b ≡ true) × (c ≡ true)
and_parts a b c h = ground arith

and_two : (a b : Bool) → (a && b) ≡ true → (a ≡ true) × (b ≡ true)
and_two a b h = ground arith

kept_same :
    (k : String) (v v' : Value) (m m' : Members)
    → are_clean (with_member k v m) ≡ true
    → (is_clean v ≡ true → v' ≡ v)
    → (are_clean m ≡ true → m' ≡ m)
    → (if str_eq k "pattern" && is_lookaround v then m' else with_member k v' m')
      ≡ with_member k v m
kept_same k v v' m m' h f g =
    let (t, p, q) = and_parts (str_eq k "pattern" && has_group v) (is_clean v) (are_clean m) h in
    ap (λ (b : Bool). if str_eq k "pattern" && b then m' else with_member k v' m') (same_group v)
    ∙ ap (λ (b : Bool). if b then m' else with_member k v' m') t
    ∙ (λ i. with_member k (f p i) (g q i))

mutual
  unfolding strip_patterns

  strip_patterns-clean : (v : Value) → is_clean v ≡ true → strip_patterns v ≡ v
  strip_patterns-clean (object m) h = ap object (strip-are_clean m h)
  strip_patterns-clean (array vs) h = ap array (strip-all_clean vs h)
  strip_patterns-clean nil_value h = refl
  strip_patterns-clean (str s) h = refl
  strip_patterns-clean (number n) h = refl
  strip_patterns-clean (truth b) h = refl

  strip-are_clean : (m : Members) → are_clean m ≡ true → strip_members m ≡ m
  strip-are_clean no_members h = refl
  strip-are_clean (with_member k v m) h =
      kept_same k v (strip_patterns v) m (strip_members m) h (strip_patterns-clean v)
        (strip-are_clean m)

  strip-all_clean : (vs : Elements) → all_clean vs ≡ true → strip_elements vs ≡ vs
  strip-all_clean no_elements h = refl
  strip-all_clean (with_element v vs) h =
      let (p, q) = and_two (is_clean v) (all_clean vs) h in
      λ i. with_element (strip_patterns-clean v p i) (strip-all_clean vs q i)

-- What stands for a member: nothing if it is pruned, and else a member of its key.
abbrev pub Prunes : Bool → String → (Value → Type 0) → (Members → Type 0) → Members → Type 0
Prunes true k R S n = S n
Prunes false k R S no_members = ⊥
Prunes false k R S (with_member j w n) = (j ≡ k) × R w × S n

abbrev pub IsObject : (Members → Type 0) → Value → Type 0
IsObject S (object n) = S n
IsObject S _ = ⊥

abbrev pub IsArray : (Elements → Type 0) → Value → Type 0
IsArray S (array ws) = S ws
IsArray S _ = ⊥

abbrev pub IsFollowed : (Value → Type 0) → (Elements → Type 0) → Elements → Type 0
IsFollowed R S no_elements = ⊥
IsFollowed R S (with_element w ws) = R w × S ws

-- The second value is the first without the members "pattern" whose text has "(?" in it, at any depth:
-- all other members, elements and values are there, in their order.
abbrev mutual
  pub IsPruned : Value → Value → Type 0
  IsPruned (object m) w = IsObject (ArePruned m) w
  IsPruned (array vs) w = IsArray (AllPruned vs) w
  IsPruned v w = w ≡ v

  pub ArePruned : Members → Members → Type 0
  ArePruned no_members n = n ≡ no_members
  ArePruned (with_member k v m) n =
      Prunes (str_eq k "pattern" && has_group v) k (IsPruned v) (ArePruned m) n

  pub AllPruned : Elements → Elements → Type 0
  AllPruned no_elements ws = ws ≡ no_elements
  AllPruned (with_element v vs) ws = IsFollowed (IsPruned v) (AllPruned vs) ws

prune_if :
    (b : Bool) (k : String) (w : Value) (n : Members) (R : Value → Type 0) (S : Members → Type 0)
    → R w
    → S n
    → Prunes b k R S (if b then n else with_member k w n)
prune_if true k w n R S r s = s
prune_if false k w n R S r s = (refl, r, s)

mutual
  unfolding strip_patterns

  strip_patterns-IsPruned : (v : Value) → IsPruned v (strip_patterns v)
  strip_patterns-IsPruned (object m) = strip_members-ArePruned m
  strip_patterns-IsPruned (array vs) = strip_elements-AllPruned vs
  strip_patterns-IsPruned nil_value = refl
  strip_patterns-IsPruned (str s) = refl
  strip_patterns-IsPruned (number n) = refl
  strip_patterns-IsPruned (truth b) = refl

  strip_members-ArePruned : (m : Members) → ArePruned m (strip_members m)
  strip_members-ArePruned no_members = refl
  strip_members-ArePruned (with_member k v m) =
      subst
        (λ (b : Bool). Prunes (str_eq k "pattern" && b) k (IsPruned v) (ArePruned m) (
          if str_eq k "pattern" && is_lookaround v
          then strip_members m
          else with_member k (strip_patterns v) (strip_members m)))
        (same_group v)
        (prune_if (str_eq k "pattern" && is_lookaround v) k (strip_patterns v) (strip_members m)
          (IsPruned v) (ArePruned m) (strip_patterns-IsPruned v) (strip_members-ArePruned m))

  strip_elements-AllPruned : (vs : Elements) → AllPruned vs (strip_elements vs)
  strip_elements-AllPruned no_elements = refl
  strip_elements-AllPruned (with_element v vs) =
      (strip_patterns-IsPruned v, strip_elements-AllPruned vs)

-- The stripped value is the given one without the members "pattern" whose text has "(?" in it, at any
-- depth, and with all else in its order; no such member is left in it, and a value that has none is not
-- changed.
pub strip_patterns_lem :
    (v : Value)
    → IsPruned v (strip_patterns v)
      × (is_clean (strip_patterns v) ≡ true)
      × (is_clean v ≡ true → strip_patterns v ≡ v)
strip_patterns_lem v =
    (strip_patterns-IsPruned v, is_clean-strip_patterns v, strip_patterns-clean v)
