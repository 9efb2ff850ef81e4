-- ===== src/Base/Value.antt =====
-- Go's `any`, as YAML and JSON decoding fills it. A number is kept by its literal.
use Prim.Native.String.{String}
use mathlib.Core.Bool.{Bool}
use mathlib.Core.List.{List, [], ◌∷◌, map}
use mathlib.Core.Option.{Option, none, some}
use text.Mathlib.Text.{◌==◌ as str_eq}
use fi_mcp_kit.Base.Tests.{if◌then◌else◌}

mutual
  -- nil, string, float64, bool, map[string]any and []any.
  pub data Value : Type 0 where
    nil_value : Value
    str : String → Value
    number : String → Value
    truth : Bool → Value
    object : Members → Value
    array : Elements → Value

  pub data Members : Type 0 where
    no_members : Members
    with_member : (key : String) (value : Value) (others : Members) → Members

  pub data Elements : Type 0 where
    no_elements : Elements
    with_element : (first : Value) (others : Elements) → Elements

-- v, _ := m[key]
unfoldable pub member : String → Members → Option Value
member key no_members = none
member key (with_member k v others) = if str_eq k key then some v else member key others

-- s, ok := v.(string)
unfoldable pub as_string : Option Value → Option String
as_string (some (str s)) = some s
as_string _ = none

-- Maps and slices as they are written in place.
abbrev pub members_of : List (String × Value) → Members
members_of [] = no_members
members_of ((k, v) ∷ l) = with_member k v (members_of l)

abbrev pub fields : List (String × Value) → Value
fields l = object (members_of l)

abbrev pub items_of : List Value → Elements
items_of [] = no_elements
items_of (v ∷ l) = with_element v (items_of l)

abbrev pub items : List Value → Value
items l = array (items_of l)

abbrev pub strs : List String → Value
strs l = items (map str l)
