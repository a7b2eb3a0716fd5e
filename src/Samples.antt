-- ===== src/Samples.antt =====
-- Test data of the gateway: bodies that are JSON values, a world that is the list of the requests
-- sent, and an upstream and a container that answer each request in the same way.
use brain.Base.{refl, String, Option, none, some, true, List, [], ◌∷◌, ◌++◌}
use brain.Base.Result.{Result, ok, err}
use brain.Domain.{McpProxyRequest, McpProxyPort, Headers}
use brain.Json.{Value, string, obj, Codec}
use brain.Json.Laws.{IsLawful}
use brain.Proxy.{ProxyMcpUseCase}
use brain.Plugin.Schema.{RemoteMcpContainerToolSchema, RemoteMcpContainerResourceSchema}
use brain.Plugin.Client.{RemoteMcpContainerClient}
use brain.Registry.{NativeMcpTool, execution_failed}
use brain.Router.Augment.{McpRouterUseCase}

-- A body is no JSON, or a value.
abbrev pub Bytes : Type 0
Bytes = Option Value

abbrev pub from_slice : Bytes → Result String Value
from_slice none = err "EOF while parsing a value"
from_slice (some value) = ok value

abbrev pub codec : Codec Bytes
codec = record {
  from_slice = from_slice;
  to_vec = λ value. ok (some value);
  empty = none;
  empty_object = some (obj []);
}

pub codec-IsLawful : IsLawful codec
codec-IsLawful = record { round = λ value. (some value, refl, refl) }

abbrev pub Sent : Type 0
Sent = List (McpProxyRequest Bytes)

abbrev pub answering : Bytes → McpProxyPort Sent Bytes
answering body request sent = (
  ok (record { status = 200; headers = ("Content-Length", "2") ∷ []; body = body }),
  sent ++ request ∷ [],
)

abbrev pub use_case : ProxyMcpUseCase Sent Bytes
use_case = record {
  proxy = answering (some (obj []));
  upstream_url = "http://127.0.0.1:8420";
  upstream_secret = "s3cret";
  hostname_validation = record { expected_host = some "brain.example"; enforce = true };
}

abbrev pub headers : Headers
headers =
    ("Authorization", "Bearer client")
    ∷ ("Accept", "application/json")
    ∷ ("X-Brain3-Upstream-Secret", "forged")
    ∷ ("Connection", "close")
    ∷ []

abbrev pub tool_schema : RemoteMcpContainerToolSchema
tool_schema = record {
  prefixed_name = "notes__search";
  original_name = "search";
  schema = obj (("name", string "notes__search") ∷ []);
}

abbrev pub resource_schema : RemoteMcpContainerResourceSchema
resource_schema = record {
  prefixed_uri = "ui://notes__view/main";
  original_uri = "ui://view/main";
  schema = obj (("uri", string "ui://notes__view/main") ∷ []);
}

abbrev pub client : RemoteMcpContainerClient Sent Bytes
client = record {
  container_name = "notes";
  mcp_url = "http://127.0.0.1:9000/mcp";
  bearer_token = some "container";
  proxy = answering (some (obj []));
  tool_schemas = tool_schema ∷ [];
  resource_schemas = resource_schema ∷ [];
}

abbrev pub other_client : RemoteMcpContainerClient Sent Bytes
other_client = record client { container_name = "mail" }

-- A native tool that cannot be called before it is set up.
abbrev pub clock : NativeMcpTool Sent
clock = record {
  name = "clock";
  description = "The time.";
  input_schema = obj [];
  meta = none;
  on_initialize = λ sent. (err (execution_failed "no clock"), sent);
  call = λ arguments sent. (err (execution_failed "no clock"), sent);
}

abbrev pub router : McpRouterUseCase Sent Bytes
router = record {
  proxy = use_case;
  native_tools = record { tools = clock ∷ []; resources = [] };
  plugin_containers = other_client ∷ client ∷ [];
}

-- A request of an MCP method with a text in its params.
abbrev pub mcp_request : String → String → String → Value
mcp_request method key text = obj (
    ("jsonrpc", string "2.0")
    ∷ ("method", string method)
    ∷ ("params", obj ((key, string text) ∷ []))
    ∷ [])
