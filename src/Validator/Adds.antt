-- ===== src/Validator/Adds.antt =====
-- What the steps of a validation add to the errors of a result, as a relation between results that
-- composes.
use fi_mcp_kit.Base.{
  ◌≡◌, refl, ◌∙◌, String, Bool, true, false, not, ◌&&◌, ◌||◌, List, [], ◌∷◌, ◌++◌, arith, any_of,
  cat, if◌then◌else◌,
}
use fi_mcp_kit.Base.Value.{object, Members, no_members, with_member}
use fi_mcp_kit.Validator.Result.{
  ValidationResult, severity_error, severity_warning, has_errors, counts, issue, add_error,
  add_warning, set_valid,
}
use fi_mcp_kit.Validator.Json.{
  SchemaError, schema_error, no_causes, with_cause, flatten, flatten_all, Verdict, accepted,
  rejected, broken_schema, report_all, report, or_slash, add_when, each_server,
}
use fi_mcp_kit.Validator.Runtime.{add_warning_when}

-- `r'` has an error exactly if `r` has one or the check has failed.
abbrev pub Adds : ValidationResult → ValidationResult → Bool → Type 0
Adds r r' ok = has_errors r' ≡ (has_errors r || not ok)

any_of-snoc :
    {A : Type 0} (p : A → Bool) (l : List A) (x : A)
    → any_of p (l ++ (x ∷ [])) ≡ (any_of p l || p x)
any_of-snoc p [] x = ground arith
any_of-snoc p (y ∷ l) x = ground (arith, any_of-snoc p l x)

module _ (r : ValidationResult) where
  pub Adds-nothing : Adds r r true
  Adds-nothing = ground arith

  pub Adds-add_error : (code field message : String) → Adds r (add_error code field message r) false
  unfolding add_error has_errors
  Adds-add_error code field message =
      any_of-snoc counts r.errors (issue severity_error code field message 0 r)

  pub Adds-add_warning :
      (code field message : String) → Adds r (add_warning code field message r) true
  unfolding add_warning has_errors
  Adds-add_warning code field message =
      any_of-snoc counts r.errors (issue severity_warning code field message 0 r)

  pub Adds-add_when :
      (b : Bool) (code field message : String) → Adds r (add_when b code field message r) (not b)
  Adds-add_when true code field message = Adds-add_error code field message
  Adds-add_when false code field message = Adds-nothing

  pub Adds-add_warning_when :
      (b : Bool) (code field message : String)
      → Adds r (add_warning_when b code field message r) true
  Adds-add_warning_when true code field message = Adds-add_warning code field message
  Adds-add_warning_when false code field message = Adds-nothing

  pub Adds-then :
      (r' r'' : ValidationResult) (a b : Bool) → Adds r r' a → Adds r' r'' b → Adds r r'' (a && b)
  Adds-then r' r'' a b p q = ground (arith, p, q)

  pub Adds-if :
      (b : Bool) (x y : ValidationResult) (p q : Bool)
      → Adds r x p
      → Adds r y q
      → Adds r (if b then x else y) (if b then p else q)
  Adds-if true x y p q h k = h
  Adds-if false x y p q h k = k

  pub set_valid_lem :
      (r' : ValidationResult) (a : Bool)
      → has_errors r ≡ false
      → Adds r r' a
      → (set_valid r').valid ≡ a
  unfolding set_valid
  set_valid_lem r' a h p = ground (arith, h, p)

-- A tree of schema errors has a leaf.
abbrev pub is_cons {ℓ} : {A : Type ℓ} → List A → Bool
is_cons [] = false
is_cons (x ∷ xs) = true

is_cons-append {ℓ} : {A : Type ℓ} (xs ys : List A) → is_cons (xs ++ ys) ≡ (is_cons xs || is_cons ys)
is_cons-append [] ys = ground arith
is_cons-append (x ∷ xs) ys = ground arith

pub flatten_has_leaf : (e : SchemaError) → is_cons (flatten e) ≡ true
unfolding flatten
flatten_has_leaf (schema_error l m no_causes) = refl
flatten_has_leaf (schema_error l m (with_cause e es)) =
    is_cons-append (flatten e) (flatten_all es) ∙ ground (arith, flatten_has_leaf e)

abbrev pub is_accepted : Verdict → Bool
is_accepted accepted = true
is_accepted _ = false

report_all-Adds :
    (code : String) (es : List (String × String)) (r : ValidationResult)
    → Adds r (report_all (add_error code) es r) (not (is_cons es))
unfolding report_all
report_all-Adds code [] r = Adds-nothing r
report_all-Adds code ((l, m) ∷ es) r =
    let r' = add_error code (or_slash l) m r in
    ground (arith, Adds-add_error r code (or_slash l) m, report_all-Adds code es r')

-- A verdict of the schema adds an error unless the schema accepts.
pub report-Adds :
    (code : String) (v : Verdict) (r : ValidationResult)
    → Adds r (report (add_error code) v r) (is_accepted v)
unfolding report
report-Adds code accepted r = Adds-nothing r
report-Adds code (rejected e) r = rw flatten_has_leaf at (report_all-Adds code (flatten e) r)
report-Adds code (broken_schema text) r = Adds-add_error r code "" text

-- Every server that is an object passes.
abbrev pub all_servers : (Members → Bool) → Members → Bool
all_servers ok no_members = true
all_servers ok (with_member name (object s) others) = ok s && all_servers ok others
all_servers ok (with_member name _ others) = all_servers ok others

pub each_server-Adds :
    (check : String → Members → ValidationResult → ValidationResult) (ok : Members → Bool)
    → ((field : String) (s : Members) (r : ValidationResult) → Adds r (check field s r) (ok s))
    → (root : String) (m : Members) (r : ValidationResult)
    → Adds r (each_server check root m r) (all_servers ok m)
unfolding each_server
each_server-Adds check ok h root no_members r = Adds-nothing r
each_server-Adds check ok h root (with_member name (object s) others) r =
    let r' = check (cat root (cat "." name)) s r in
    Adds-then r r' (each_server check root others r') (ok s) (all_servers ok others)
      (h (cat root (cat "." name)) s r) (each_server-Adds check ok h root others r')
each_server-Adds check ok h root (with_member name v others) r =
    each_server-Adds check ok h root others r
