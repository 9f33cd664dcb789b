-- ===== src/Plugin.antt =====
-- napcat-rs/crates/plugin: the data of plugins and `PluginManager`. Child modules hold the
-- validation of sources, the three backends and the theorems. Time limits are in milliseconds.
pub mod Sources
pub mod Backends
pub mod Manager
use nap_cat_qq_rs.Prelude.{ℕ, String, Bool, Option, List}

pub data PluginBackendKind : Type 0 where
  rust wasm http : PluginBackendKind

pub record PluginMetadata : Type 0 where
  pub name : String
  pub version : String
  pub description : Option String
  pub author : Option String

-- `Value` is `serde_json::Value`.
pub data PluginEvent (Value : Type 0) : Type 0 where
  load unload health_check : PluginEvent Value
  message : Value → Option String → PluginEvent Value

pub data PluginAction (Value : Type 0) : Type 0 where
  continue stop : PluginAction Value
  emit : Value → PluginAction Value

pub data PluginSource : Type 0 where
  rust : (executable : String) (args : List String) (timeout_ms : ℕ) → PluginSource
  wasm : (wasm_file entrypoint : String) (timeout_ms : ℕ) → PluginSource
  http : (endpoint : String) (timeout_ms : ℕ) → PluginSource

pub record PluginDefinition : Type 0 where
  pub metadata : PluginMetadata
  pub source : PluginSource
  pub enabled : Bool

pub data PluginError : Type 0 where
  already_loaded disabled not_found : (name : String) → PluginError
  empty_name : PluginError
  io serialize deserialize invalid_utf8 runtime_unavailable transport invalid_source :
      String → PluginError
  timeout : (timeout_ms : ℕ) → PluginError

-- What is loaded: a validated source with the metadata of its definition.
pub data PluginBackend : Type 0 where
  rust :
      PluginMetadata → (executable : String) (args : List String) (timeout_ms : ℕ) → PluginBackend
  wasm : PluginMetadata → (wasm_file entrypoint : String) (timeout_ms : ℕ) → PluginBackend
  http : PluginMetadata → (endpoint : String) (timeout_ms : ℕ) → PluginBackend

unfoldable pub metadata_of : PluginBackend → PluginMetadata
metadata_of (PluginBackend.rust metadata executable args timeout_ms) = metadata
metadata_of (PluginBackend.wasm metadata wasm_file entrypoint timeout_ms) = metadata
metadata_of (PluginBackend.http metadata endpoint timeout_ms) = metadata

unfoldable pub kind : PluginBackend → PluginBackendKind
kind (PluginBackend.rust metadata executable args timeout_ms) = PluginBackendKind.rust
kind (PluginBackend.wasm metadata wasm_file entrypoint timeout_ms) = PluginBackendKind.wasm
kind (PluginBackend.http metadata endpoint timeout_ms) = PluginBackendKind.http

unfoldable pub timeout_of : PluginBackend → ℕ
timeout_of (PluginBackend.rust metadata executable args timeout_ms) = timeout_ms
timeout_of (PluginBackend.wasm metadata wasm_file entrypoint timeout_ms) = timeout_ms
timeout_of (PluginBackend.http metadata endpoint timeout_ms) = timeout_ms
