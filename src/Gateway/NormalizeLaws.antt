-- ===== src/Gateway/NormalizeLaws.antt =====
-- normalizeToolResultText of pkg/gateway/toolresult_normalize.go applied to its own result.
use fi_mcp_kit.Base.{
  ◌≡◌, refl, ◌∙◌, ap, String, Bool, true, false, ◌||◌, Option, none, some, arith, str_eq, eq_iff,
  if◌then◌else◌, if_cases,
}
use fi_mcp_kit.Base.Text.{trim_space}
use fi_mcp_kit.Base.Value.{
  Value, str, object, array, Members, no_members, with_member, Elements, no_elements, with_element,
  member, as_string,
}
use fi_mcp_kit.Gateway.Normalize.{
  Codec, set_member, structured, is_text, marks_error, toon_text_to_json, with_json, with_text,
  normalize_item, normalize_items, or_raw, with_items, with_content, normalize_decoded,
  normalize_tool_result_text, marshalled,
}

-- What the code relies on: decoding gives back a value that was marshalled, and a marshalled value is
-- valid JSON.
pub record IsLossless (codec : Codec) : Type 0 where
  pub reads_back : (v : Value) {s : String} → codec.marshal v ≡ some s → codec.decode s ≡ some v
  pub is_valid :
      (v : Value) {s : String} → codec.marshal v ≡ some s → codec.is_json (trim_space s) ≡ true

member-set_member :
    (k key : String) (v : Value) (m : Members)
    → member k (set_member key v m) ≡ (if str_eq key k then some v else member k m)
unfolding member set_member
member-set_member k key v no_members = refl
member-set_member k key v (with_member j w m) =
    ground (arith, eq_iff j key, eq_iff j k, eq_iff key k, member-set_member k key v m)

module _ (codec : Codec) (law : IsLossless codec) where
  abbrev IsSettled : Value × Bool → Type 0
  IsSettled r = normalize_item codec r.0 ≡ (r.0, false)

  marshalled_valid :
      (o : Option Value) {json : String}
      → marshalled codec o ≡ some json
      → codec.is_json (trim_space json) ≡ true
  marshalled_valid none e = absurd (ground (arith, e))
  marshalled_valid (some v) e = law.is_valid v e

  json_stays :
      (text : String) {json : String}
      → toon_text_to_json codec text ≡ some json
      → toon_text_to_json codec json ≡ none
  unfolding toon_text_to_json
  json_stays text {json} =
      if_cases (λ o. o ≡ some json → toon_text_to_json codec json ≡ none)
        (str_eq (trim_space text) "" || codec.is_json (trim_space text)) _ _
        (λ e h. absurd (ground (arith, h)))
        (λ e h. ground (arith, marshalled_valid (structured (codec.decode_toon text)) h))

  item_with_text :
      (m : Members) (o : Option String)
      → is_text m ≡ true
      → as_string (member "text" m) ≡ o
      → normalize_item codec (object m) ≡ with_text codec m o
  unfolding normalize_item
  item_with_text m o t h = rw (t, h) refl

  text_of : Option Value → Bool
  text_of o = elim (as_string o) [ none ↦ false | some t ↦ str_eq t "text" ]

  still_text : (m : Members) (v : Value) → is_text m ≡ true → is_text (set_member "text" v m) ≡ true
  unfolding text_of
  still_text m v t = ap text_of (member-set_member "type" "text" v m) ∙ t

  with_json-IsSettled :
      (m : Members) (text : String) (o : Option String)
      → is_text m ≡ true
      → as_string (member "text" m) ≡ some text
      → toon_text_to_json codec text ≡ o
      → IsSettled (with_json codec m o)
  with_json-IsSettled m text none t h k =
      item_with_text m (some text) t h ∙ ap (with_json codec m) k
  with_json-IsSettled m text (some json) t h k =
      let n = set_member "text" (str json) m in
      item_with_text n (some json) (still_text m (str json) t)
        (new_text (member-set_member "text" "text" (str json) m))
      ∙ ap (with_json codec n) (json_stays text k)
    where
      new_text : {o : Option Value} → o ≡ some (str json) → as_string o ≡ some json
      new_text e = unfold as_string in ap as_string e

  with_text-IsSettled :
      (m : Members) (o : Option String)
      → is_text m ≡ true
      → as_string (member "text" m) ≡ o
      → IsSettled (with_text codec m o)
  with_text-IsSettled m none t h = item_with_text m none t h
  with_text-IsSettled m (some text) t h =
      with_json-IsSettled m text (toon_text_to_json codec text) t h refl

  item-IsSettled : (v : Value) → IsSettled (normalize_item codec v)
  unfolding normalize_item
  item-IsSettled (object m) =
      if_cases IsSettled (is_text m) _ _
        (λ t. with_text-IsSettled m (as_string (member "text" m)) t refl) (λ e. rw e refl)
  item-IsSettled Value.nil_value = refl
  item-IsSettled (str s) = refl
  item-IsSettled (Value.number n) = refl
  item-IsSettled (Value.truth b) = refl
  item-IsSettled (array vs) = refl

  items_settled :
      (vs : Elements)
      → normalize_items codec (normalize_items codec vs).0 ≡ ((normalize_items codec vs).0, false)
  unfolding normalize_items
  items_settled no_elements = refl
  items_settled (with_element v vs) = rw (item-IsSettled v, items_settled vs) refl

  -- The members that decide what is done with a result.
  again :
      (raw : String) (m : Members) (vs : Elements)
      → marks_error (member "isError" m) ≡ false
      → normalize_items codec vs ≡ (vs, false)
      → normalize_decoded codec raw (some (object (set_member "content" (array vs) m))) ≡ raw
  again raw m no_elements e h =
      let c = array no_elements in
      rw (member-set_member "isError" "content" c m, e, member-set_member "content" "content" c m)
        refl
  again raw m (with_element v vs) e h =
      let c = array (with_element v vs) in
      rw
        (member-set_member "isError" "content" c m, e, member-set_member "content" "content" c m, h)
        refl

  module _ (raw : String) where
    -- If this is what becomes of the text, it stays as it is.
    abbrev IsFinal : String → Type 0
    IsFinal out =
        normalize_tool_result_text codec raw ≡ out → normalize_tool_result_text codec out ≡ out

    or_raw-IsFinal :
        (m : Members) (vs : Elements) (o : Option String)
        → marks_error (member "isError" m) ≡ false
        → normalize_items codec vs ≡ (vs, false)
        → codec.marshal (object (set_member "content" (array vs) m)) ≡ o
        → IsFinal (or_raw codec raw o)
    unfolding normalize_tool_result_text
    or_raw-IsFinal m vs none e h k = λ p. p
    or_raw-IsFinal m vs (some out) e h k =
        λ p. ap (normalize_decoded codec out) (law.reads_back _ k) ∙ again out m vs e h

    with_items-IsFinal :
        (m : Members) (r : Elements × Bool)
        → marks_error (member "isError" m) ≡ false
        → normalize_items codec r.0 ≡ (r.0, false)
        → IsFinal (with_items codec raw m r)
    with_items-IsFinal m (vs, false) e h = λ p. p
    with_items-IsFinal m (vs, true) e h = or_raw-IsFinal m vs _ e h refl

    with_content-IsFinal :
        (m : Members) (o : Option Value)
        → marks_error (member "isError" m) ≡ false
        → IsFinal (with_content codec raw m o)
    with_content-IsFinal m (some (array (with_element v vs))) e =
        with_items-IsFinal m _ e (items_settled (with_element v vs))
    with_content-IsFinal m (some (array no_elements)) e = λ p. p
    with_content-IsFinal m (some (object n)) e = λ p. p
    with_content-IsFinal m (some (str s)) e = λ p. p
    with_content-IsFinal m (some (Value.number n)) e = λ p. p
    with_content-IsFinal m (some (Value.truth b)) e = λ p. p
    with_content-IsFinal m (some Value.nil_value) e = λ p. p
    with_content-IsFinal m none e = λ p. p

    decoded-IsFinal : (o : Option Value) → IsFinal (normalize_decoded codec raw o)
    decoded-IsFinal (some (object m)) =
        if_cases IsFinal (marks_error (member "isError" m)) _ _ (λ e p. p)
          (λ e. with_content-IsFinal m (member "content" m) e)
    decoded-IsFinal (some (array vs)) = λ p. p
    decoded-IsFinal (some (str s)) = λ p. p
    decoded-IsFinal (some (Value.number n)) = λ p. p
    decoded-IsFinal (some (Value.truth b)) = λ p. p
    decoded-IsFinal (some Value.nil_value) = λ p. p
    decoded-IsFinal none = λ p. p

-- If decoding gives back a value that was marshalled, and a marshalled value is valid JSON,
-- normalizeToolResultText leaves its own result as it is, whatever the text it began with.
pub normalize_tool_result_text_idempotent :
    (codec : Codec) (raw : String)
    → IsLossless codec
    → normalize_tool_result_text codec (normalize_tool_result_text codec raw)
      ≡ normalize_tool_result_text codec raw
unfolding normalize_tool_result_text
normalize_tool_result_text_idempotent codec raw law =
    decoded-IsFinal codec law raw (codec.decode raw) refl
