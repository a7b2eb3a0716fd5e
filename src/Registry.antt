-- ===== src/Registry.antt =====
-- crates/core/src/application/native_mcp_tool_registry.rs, and the traits of ports/native_mcp_tool.rs
-- and ports/native_mcp_resource.rs as records: the methods of a native tool or resource.
use brain.Base.{
  String, Option, none, some, Bool, true, not, List, [], ◌∷◌, ◌==◌, map, find, is_empty,
}
use brain.Base.Io.{Io, pure, ◌>>◌}
use brain.Base.Text.{◌⧺◌}
use brain.Json.{Value, string, obj, fields, object, insert}

pub record NativeMcpToolTextContent : Type 0 where
  pub text : String

pub record NativeMcpToolOutput : Type 0 where
  pub content : List NativeMcpToolTextContent
  pub is_error : Bool

abbrev pub error_text : String → NativeMcpToolOutput
error_text text = record { content = record { text = text } ∷ []; is_error = true }

pub data NativeMcpToolError : Type 0 where
  invalid_arguments execution_failed : String → NativeMcpToolError

unfoldable pub display_tool_error : NativeMcpToolError → String
display_tool_error (invalid_arguments s) = "invalid arguments: " ⧺ s
display_tool_error (execution_failed s) = "tool execution failed: " ⧺ s

pub data NativeMcpResourceContent : Type 0 where
  text_content blob_content : String → NativeMcpResourceContent

pub data NativeMcpResourceError : Type 0 where
  read_failed : String → NativeMcpResourceError

unfoldable pub display_resource_error : NativeMcpResourceError → String
display_resource_error (read_failed s) = "resource read failed: " ⧺ s

pub record NativeMcpTool (W : Type 0) : Type 0 where
  pub name : String
  pub description : String
  pub input_schema : Value
  pub meta : Option Value
  pub on_initialize : Io W NativeMcpToolError Unit
  pub call : Value → Io W NativeMcpToolError NativeMcpToolOutput

pub record NativeMcpResource (W : Type 0) : Type 0 where
  pub uri : String
  pub name : String
  pub mime_type : String
  pub read : Io W NativeMcpResourceError NativeMcpResourceContent

pub record NativeMcpToolRegistry (W : Type 0) : Type 0 where
  pub tools : List (NativeMcpTool W)
  pub resources : List (NativeMcpResource W)

-- `on_initialize` of each tool in turn, up to the first that fails.
unfoldable pub initialize_tools :
    {W : Type 0} → List (NativeMcpTool W) → Io W NativeMcpToolError Unit
initialize_tools [] = pure tt
initialize_tools (tool ∷ tools) = tool.on_initialize >> initialize_tools tools

module _ {W : Type 0} where
  unfoldable pub tool_schema : NativeMcpTool W → Value
  unfolding insert
  tool_schema tool =
      let schema = fields (
        ("name", string tool.name)
        ∷ ("description", string tool.description)
        ∷ ("inputSchema", tool.input_schema)
        ∷ []) in
      elim tool.meta [ none ↦ object schema | some meta ↦ object (insert "_meta" meta schema) ]

  unfoldable pub resource_schema : NativeMcpResource W → Value
  resource_schema resource = obj (
      ("uri", string resource.uri)
      ∷ ("name", string resource.name)
      ∷ ("mimeType", string resource.mime_type)
      ∷ [])

  module _ (registry : NativeMcpToolRegistry W) where
    unfoldable pub find_tool : String → Option (NativeMcpTool W)
    find_tool name = find (λ (tool : NativeMcpTool W). tool.name == name) registry.tools

    unfoldable pub find_resource : String → Option (NativeMcpResource W)
    find_resource uri =
        find (λ (resource : NativeMcpResource W). resource.uri == uri) registry.resources

    unfoldable pub list_schemas : List Value
    unfolding tool_schema
    list_schemas = map tool_schema registry.tools

    unfoldable pub list_resource_schemas : List Value
    unfolding resource_schema
    list_resource_schemas = map resource_schema registry.resources

    unfoldable pub has_resources : Bool
    has_resources = not (is_empty registry.resources)

    unfoldable pub initialize_all : Io W NativeMcpToolError Unit
    unfolding initialize_tools
    initialize_all = initialize_tools registry.tools
