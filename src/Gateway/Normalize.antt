-- ===== src/Gateway/Normalize.antt =====
-- pkg/gateway/toolresult_normalize.go: texts of a tool's result in the TOON format become JSON.
use fi_mcp_kit.Base.{String, Bool, true, false, ◌||◌, Option, none, some, str_eq, if◌then◌else◌}
use fi_mcp_kit.Base.Text.{trim_space}
use fi_mcp_kit.Base.Value.{
  Value, str, truth, object, array, Members, no_members, with_member, Elements, no_elements,
  with_element, member, as_string,
}

-- json.Unmarshal, json.Marshal and json.Valid, and DecodeTOON of mcp-go; nothing is an error.
pub record Codec : Type 0 where
  pub decode : String → Option Value
  pub marshal : Value → Option String
  pub is_json : String → Bool
  pub decode_toon : String → Option Value

-- m[key] = value
unfoldable pub set_member : String → Value → Members → Members
set_member key value no_members = with_member key value no_members
set_member key value (with_member k v others) =
    if str_eq k key
    then with_member k value others
    else with_member k v (set_member key value others)

-- On a map.
unfoldable pub unwrap_anonymous_items : Members → Value
unwrap_anonymous_items (with_member k (array vs) no_members) =
    if str_eq k "items" then array vs else object (with_member k (array vs) no_members)
unwrap_anonymous_items m = object m

abbrev pub structured : Option Value → Option Value
structured (some (object m)) = some (unwrap_anonymous_items m)
structured (some (array vs)) = some (array vs)
structured _ = none

abbrev pub is_text : Members → Bool
is_text m = elim (as_string (member "type" m)) [ none ↦ false | some t ↦ str_eq t "text" ]

abbrev pub marks_error : Option Value → Bool
marks_error (some (truth b)) = b
marks_error _ = false

module _ (codec : Codec) where
  abbrev pub marshalled : Option Value → Option String
  marshalled none = none
  marshalled (some v) = codec.marshal v

  unfoldable pub toon_text_to_json : String → Option String
  unfolding unwrap_anonymous_items
  toon_text_to_json text =
      let trimmed = trim_space text in
      if str_eq trimmed "" || codec.is_json trimmed
      then none
      else marshalled (structured (codec.decode_toon text))

  -- The item, and whether it is changed.
  abbrev pub with_json : Members → Option String → Value × Bool
  with_json m none = (object m, false)
  with_json m (some json) = (object (set_member "text" (str json) m), true)

  abbrev pub with_text : Members → Option String → Value × Bool
  with_text m none = (object m, false)
  with_text m (some text) = with_json m (toon_text_to_json text)

  unfoldable pub normalize_item : Value → Value × Bool
  unfolding toon_text_to_json set_member
  normalize_item (object m) =
      if is_text m then with_text m (as_string (member "text" m)) else (object m, false)
  normalize_item v = (v, false)

  unfoldable pub normalize_items : Elements → Elements × Bool
  unfolding normalize_item
  normalize_items no_elements = (no_elements, false)
  normalize_items (with_element v vs) =
      let (w, b) = normalize_item v in
      let (ws, c) = normalize_items vs in (with_element w ws, b || c)

  abbrev pub or_raw : String → Option String → String
  or_raw raw none = raw
  or_raw raw (some out) = out

  abbrev pub with_items : String → Members → Elements × Bool → String
  with_items raw m (vs, false) = raw
  with_items raw m (vs, true) =
      or_raw raw (codec.marshal (object (set_member "content" (array vs) m)))

  abbrev pub with_content : String → Members → Option Value → String
  with_content raw m (some (array (with_element v vs))) =
      with_items raw m (normalize_items (with_element v vs))
  with_content raw m _ = raw

  abbrev pub normalize_decoded : String → Option Value → String
  normalize_decoded raw (some (object m)) =
      if marks_error (member "isError" m) then raw else with_content raw m (member "content" m)
  normalize_decoded raw _ = raw

  unfoldable pub normalize_tool_result_text : String → String
  unfolding normalize_items set_member
  normalize_tool_result_text raw = normalize_decoded raw (codec.decode raw)
