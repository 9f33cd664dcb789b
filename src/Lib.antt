-- ===== src/Lib.antt =====
-- A verification library of NapCatQQ-RS (napcat-rs/crates): the state machines, parsers, queues and
-- request handlers of the Rust crates, as functions, and theorems on them.
--
-- How the crates fit together. The command line (cli) loads a configuration (config), builds a
-- protocol backend (protocol) over a client (qq-client) or over HTTP, and starts the API server
-- (api). The server keeps shared state, validates requests, hands messages (message) to the backend
-- and to its event bus (event), and asks the plugin manager (plugin) to load, unload and call
-- plugins. A runtime (core) owns background tasks, a desktop panel (desktop) counts events, and a
-- store (storage) keeps JSON records.
--
-- What models what:
--   Text, HashMap, OsPath
--                     the operations of Rust's standard library that the crates call
--   Storage           crates/storage: MemoryStore, and SqliteStore (Sqlite) over a database that is a
--                     parameter with the laws of its statements (Sqlite/Database); Contents is the
--                     contract of both, Paths the opening of a database and the factory
--   Config            crates/config: AppConfig::load, load_file, load_env, apply_patch
--   Message           crates/message: elements, predicates, EchoHandler, dispatch
--   QqClient          crates/qq-client: MockQQClient (Mock), TcpQQClient (Reader, Tcp) with its wire
--                     (Network) and its endpoint rules (Endpoint)
--   Runtime           crates/core: the task runtime
--   Plugin            crates/plugin: validation of sources, the three backends, PluginManager
--   Protocol          crates/protocol: QQClientBackend and OneBotHttpBackend with their listeners,
--                     MockProtocol, and the three of them as implementations of the trait
--                     ProtocolBackend (Backends), the bridge to message handlers (Handler), and the
--                     requests of the HTTP backend (Http)
--   Event             crates/event: envelopes and publish
--   Desktop           crates/desktop: the panel, its task and its life cycle
--   Api               crates/api: the state and its errors; Info the reading handlers, Send the sending
--                     ones, Filter, Listen and Payload the event routes and the JSON of an event, Relay the
--                     two tasks of the state, Plugins the plugin handlers, Router the table of routes
--                     and the OneBot backend as its client, Server run_with_state. Send and Server take
--                     a ProtocolBackend as a section parameter
--   Cli               crates/cli: run_app, its overlay of the arguments and its choice of a backend
--
-- How the code is rendered. A method on shared state is a function from the state to its result and
-- the new state. A `String` is a sequence of Unicode scalar values. An unsigned integer is a natural
-- number with its bound written where the code tests or saturates. Code outside the repository
-- (serde_json, the file system, sockets, HTTP, child processes, clocks) enters as an argument: a record
-- of functions, an outcome of one call, or a list of outcomes, one for each call. A hash map is a list
-- of entries in the order of its iteration.
--
-- Bounds and fuel. The decimal printer has the number plus one as fuel, and each round divides by ten.
-- The waits, the listeners, the relay and the panel recur on the list of what their channels and the
-- network answer; listen_messages also on its budget of at most 32 events. trim_start_matches has one cut for
-- each character of its text, and Text/Prefix proves that these are enough.
--
-- Not modelled: the broadcast channels behind the event bus, what axum does with the table of routes,
-- and what sqlx does with a URL, which are calls of external crates; paths are those of Unix. An aborted listener
-- is counted (Protocol/Qq) and its run is cut off, without a step of its own. A panic is shown where TcpQQClient::heartbeat has one. An
-- asynchronous method runs to its end before the next one starts, unless a file says otherwise
-- (Runtime/Interleaving, Plugin/Manager/Race).
pub mod Prelude
pub mod Text
pub mod HashMap
pub mod Storage
pub mod Config
pub mod Message
pub mod QqClient
pub mod Runtime
pub mod Plugin
pub mod OsPath
pub mod Protocol
pub mod Cli
pub mod Event
pub mod Desktop
pub mod Api
