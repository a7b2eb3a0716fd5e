-- ===== src/Lib.antt =====
-- A model of the gateway of brain3, in Rust, and the theorems on it.
--
-- The gateway stands between the MCP clients of a user and the user's own MCP servers. A request
-- carries an access token that the token store issued. The router answers calls of native tools
-- itself, sends calls of a container's tools to that container, and sends everything else upstream
-- through the proxy, which exchanges the client's credentials for the gateway's secret. To the
-- upstream's lists of tools and resources it adds the native ones and those of the containers.
--
-- Base, Json: the parts of the language and of serde_json that the sources use. A body is a byte
-- string of any type with a codec of JSON values; `IsLawful` is what the crate documents of it.
-- Actions are functions of a state `W` of the outside world; what a port or a native tool does is a
-- field of a record, so the theorems hold for every upstream, container and tool.
-- Domain: ProxyError and the port of crates/core/src/domain/errors.rs and ports/mcp_proxy.rs,
-- validate_host of application/validate_request.rs (Domain/Host), elide_secret of domain/redact.rs
-- (Domain/Redact, with its Laws), with a panic as `none`. `Failure` is how a use case ends without a
-- response: its error, or a panic. Log lines are taken to be written, at the level info.
-- Proxy: ProxyMcpUseCase of crates/core/src/application/proxy_mcp.rs. Its log line shortens the
-- upstream secret, and a panic there is the failure `panicked`.
-- Registry: NativeMcpToolRegistry of application/native_mcp_tool_registry.rs and the traits of
-- ports/native_mcp_tool.rs and ports/native_mcp_resource.rs, as records of methods.
-- Plugin: RemoteMcpContainerClient of application/remote_mcp_container_client.rs: Uri has
-- split_uri_authority and the prefixing, Schema the cached schemas, Client the queries and the
-- forwarding, Requests the tool calls, resource reads and the start-up exchange.
-- Router: McpRouterUseCase of application/mcp_router.rs: Responses has the JSON-RPC answers, Augment
-- the changes to upstream answers, Route the routing.
-- Tokens: SqliteTokenStore of crates/platform/src/token_store/sqlite.rs. Grant has the rows and
-- their texts, Table the SQL statements, Transaction their sequences, Store the state with the
-- schema, Issuer the operations of the trait. The state is the record SqliteTokenStore with the
-- database file in it; each operation takes the clock, what the generator draws and a failure for
-- each statement as arguments. Changes, Atomic, Rows, Pair, Rotation, Recovery, Cleanup, Reach and
-- Spent prove.
-- Http: the handlers of crates/platform/src/http/mcp_handlers.rs over the state of http/state.rs:
-- Headers, Auth (the validation of a token against the store), Responses, Handlers, and Assets (the
-- assets of containers). What the http crate accepts as a status or a header is the record HttpCrate.
-- A handler in which the proxy has panicked has no response.
-- Http/Templates: the pages of http/templates.rs: Markup has their fixed text; Inert proves.
-- Http/OAuth: http/oauth_handlers.rs, registrar.rs and rate_limit.rs: Params has the checks of the
-- parameters and of the credentials, Refusal what the endpoints share, Authorize and Token the
-- handlers. The flows of the oxide_auth crate are the record Flows over the registrar, the limiter
-- of the governor crate is the record Limiter.
-- Config: crates/platform/src/config/brain3_yaml.rs: Fields has the checks of the single fields, Entry
-- an entry, Yaml the entries in their order with the names that have been seen. The file system and
-- the YAML crate are the record System. Entry/Checked, Yaml/Names and Yaml/Mounts prove. EnvFile has
-- the variables of config/env_file.rs: the single readers, Hosts with the public host and the tunnel,
-- Startup with the container, Load with `EnvFileConfigAdapter::load`; what the process finds is the
-- record Process. Given, Hosted and Coherent prove.
-- Setup: the set-up wizard: Model has the data of domain/setup.rs, Wizard and Existing
-- FirstRunSetupUseCase of application/first_run_setup.rs over the port of ports/setup_system.rs, Writer
-- the environment file of crates/platform/src/setup/env_writer.rs. Written (with the loader of Config)
-- and Finalized prove.
-- Tunnel: start_tunnel of crates/platform/src/tunnel/startup.rs; the files and the adapters are the
-- record Tunnels. Rules and Laws prove.
-- Container: EnsureContainerUseCase of application/ensure_container.rs (Ensure), the port of
-- ports/container.rs and the types of domain/model.rs and domain/errors.rs (Port, Model, Error), and
-- crates/platform/src/container/startup.rs: Scope has the identity of an installation, Settings the
-- labels and settings of a container, Orphans the clean-up of earlier containers, Startup the start
-- and the stop. The runtimes are values of the record ContainerPort; clock, network and system are
-- the records Host and Environment. Base/Fueled has the steps of code with loops, Base/Fueled/Triples
-- the triples, Base/Fueled/Inversion what a step has done; Kept, Polling, Verify, Spared, Cleaned,
-- Foreign, Probed, Begun, Reached, PluginEnv and Scope/Digits prove.
-- Samples and the Tests modules hold concrete inputs.
--
-- Numbers are native; the counter of the store wraps at 2 ^ 64 and lifetimes are checked against
-- i64. Loops run over lists, with two exceptions. The decimal text of a number has the number and
-- one more as its fuel, which is never used up since each round divides by ten. The two loops that
-- wait for a container have a round for each interval before their deadline and two more; a loop
-- whose fuel is used up has no result, and that it has one is proved.
--
-- Not modelled: log lines and what they alone need, but for the panics named above; the start-up
-- inventory of the router, which only logs; the screens and the system of the set-up wizard; the
-- reading of the environment file by dotenvy; the command lines of the container runtimes and tunnels; the terminal screens and the
-- Python vault tools. Two calls at once do not occur in the store, which its callers guard by a mutex.
-- Times beyond chrono's last date are not modelled.
pub mod Base
pub mod Json
pub mod Domain
pub mod Proxy
pub mod Plugin
pub mod Registry
pub mod Router
pub mod Setup
pub mod Tunnel
pub mod Tokens
pub mod Config
pub mod Container
pub mod Http
pub mod Samples
