-- ===== src/Registry/Metadata.antt =====
-- pkg/registry/metadata.go: what is known of tools and servers beyond the registry.
use fi_mcp_kit.Base.{String, Option, none, some, List, [], str_eq, cat, if◌then◌else◌}
use fi_mcp_kit.Base.Dict.{Dict, lookup}
use fi_mcp_kit.Base.Int.{ℤ}

pub record ToolMetadata : Type 0 where
  pub usage_hint : String
  pub example : String
  pub related_tools : List String
  pub priority : ℤ

pub record ServerMetadata : Type 0 where
  pub description : String
  pub category : String
  pub tools : Dict ToolMetadata

pub record CategoryMetadata : Type 0 where
  pub description : String
  pub servers : List String

pub record Metadata : Type 0 where
  pub version : ℤ
  pub servers : Dict ServerMetadata
  pub categories : Dict CategoryMetadata

abbrev pub tool_of : Option ServerMetadata → String → Option ToolMetadata
tool_of none tool = none
tool_of (some server) tool = lookup tool server.tools

unfoldable pub get_tool_metadata : Metadata → String → String → Option ToolMetadata
get_tool_metadata m server tool = tool_of (lookup server m.servers) tool

unfoldable pub get_server_metadata : Metadata → String → Option ServerMetadata
get_server_metadata m server = lookup server m.servers

abbrev servers_in : Option CategoryMetadata → List String
servers_in none = []
servers_in (some category) = category.servers

unfoldable pub get_category_servers : Metadata → String → List String
get_category_servers m category = servers_in (lookup category m.categories)

abbrev pub hinted : Option ToolMetadata → String → String
hinted none original_desc = original_desc
hinted (some t) original_desc =
    if str_eq t.usage_hint ""
    then original_desc
    else if str_eq original_desc ""
    then t.usage_hint
    else cat original_desc (cat " | Hint: " t.usage_hint)

unfoldable pub enhance_description : Metadata → String → String → String → String
unfolding get_tool_metadata
enhance_description m server tool original_desc =
    hinted (get_tool_metadata m server tool) original_desc
