-- ===== src/Gateway/NormalizeTests.antt =====
-- A result with one text in the TOON format, and the codec of it.
use fi_mcp_kit.Base.{
  ◌≡◌, refl, sym, subst, ap, String, Bool, true, false, ◌||◌, Option, none, some, [], ◌∷◌, arith,
  str_eq, eq_iff, if◌then◌else◌,
}
use fi_mcp_kit.Base.Text.{trim_space}
use fi_mcp_kit.Secrets.FileLaws.{some_inj}
use fi_mcp_kit.Base.Value.{member, as_string, Value, str, array, no_elements, fields, items}
use fi_mcp_kit.Gateway.Normalize.{Codec, normalize_tool_result_text}
use fi_mcp_kit.Gateway.NormalizeLaws.{IsLossless, normalize_tool_result_text_idempotent}

text_decision : (s t : String) (b : Bool) → str_eq s t ≡ b → Dec (s ≡ t)
text_decision s t true e = yes ((eq_iff s t).0 e)
text_decision s t false e = no (λ p. ground (arith, e, eq_iff s t, p))

text_discrete : Discrete String
text_discrete s t = text_decision s t (str_eq s t) refl

Value-discrete : Discrete Value
Value-discrete = hlevel text_discrete

abbrev result : String → Value
result text =
    fields (("content", items (fields (("type", str "text") ∷ ("text", str text) ∷ []) ∷ [])) ∷ [])

-- The JSON of two values; any other has none here.
abbrev json_of : Value → Option String
json_of v = elim (Value-discrete v (array no_elements)) [
  | yes _ ↦ some "[]"
  | no _ ↦ elim (Value-discrete v (result "[]")) [ yes _ ↦ some "{[]}" | no _ ↦ none ]
]

abbrev one_text : Codec
one_text = record {
  decode = λ s.
      if str_eq s "[]"
      then some (array no_elements)
      else if str_eq s "{[]}"
      then some (result "[]")
      else if str_eq s "{[0]:}"
      then some (result "[0]:")
      else none;
  marshal = json_of;
  is_json = λ s. str_eq s "[]" || str_eq s "{[]}";
  decode_toon = λ s. if str_eq s "[0]:" then some (array no_elements) else none;
}

abbrev ReadsBack : Value → String → Type 0
ReadsBack v s = (one_text.decode s ≡ some v) × (one_text.is_json (trim_space s) ≡ true)

json_read :
    (v : Value) (first : Dec (v ≡ array no_elements)) (second : Dec (v ≡ result "[]")) {s : String}
    → elim first [ yes _ ↦ some "[]" | no _ ↦ elim second [ yes _ ↦ some "{[]}" | no _ ↦ none ] ]
      ≡ some s
    → ReadsBack v s
unfolding trim_space
json_read v (yes p) second e = subst (ReadsBack v) (some_inj e) (ap some (sym p), refl)
json_read v (no _) (yes p) e = subst (ReadsBack v) (some_inj e) (ap some (sym p), refl)
json_read v (no _) (no _) e = absurd (ground (arith, e))

one_text-IsLossless : IsLossless one_text
one_text-IsLossless = record {
  reads_back = λ v e.
      (json_read v (Value-discrete v (array no_elements)) (Value-discrete v (result "[]")) e).0;
  is_valid = λ v e.
      (json_read v (Value-discrete v (array no_elements)) (Value-discrete v (result "[]")) e).1;
}

normalize_tool_result_text_idempotent_example :
    normalize_tool_result_text one_text (normalize_tool_result_text one_text "{[0]:}")
    ≡ normalize_tool_result_text one_text "{[0]:}"
normalize_tool_result_text_idempotent_example =
    normalize_tool_result_text_idempotent one_text "{[0]:}" one_text-IsLossless

changed : normalize_tool_result_text one_text "{[0]:}" ≡ "{[]}"
unfolding normalize_tool_result_text member as_string trim_space Value-discrete text_discrete
    text_decision
changed = refl
