-- ===== src/Plugin/Backends.antt =====
-- How the three backends are called: the command line, the request, and what is made of the answer.
-- What the operating system, the network and serde_json answer is the record `Host`.
use nap_cat_qq_rs.Prelude.{
  ℕ, String, ◌<>◌, Bool, Option, none, some, List, [], ◌∷◌, Result, ok, err, ◌>>=◌, ◌>>◌, map_err,
  if◌then◌else◌,
}
use nap_cat_qq_rs.Text.{trim, is_blank}
use nap_cat_qq_rs.Plugin.{
  PluginEvent, load, unload, PluginAction, PluginError, io, serialize, deserialize, invalid_utf8,
  runtime_unavailable, transport, invalid_source, timeout, PluginBackend,
}

-- `Command` with the one variable of its environment that is set.
pub record Command : Type 0 where
  pub program : String
  pub phase : Option String
  pub args : List String

pub record Output (Bytes : Type 0) : Type 0 where
  pub success : Bool
  pub stdout : Bytes

-- A child process: its answer to the write of its input, and how the wait for its output ends, given
-- what was written; no answer means that the time ran out.
pub record Child (Bytes : Type 0) : Type 0 where
  pub write_all : String → Result String (Unit {0})
  pub wait : Option String → Option (Result String (Output Bytes))

pub record Response (Bytes : Type 0) : Type 0 where
  pub is_success : Bool
  pub status : String
  pub bytes : Result String Bytes

-- `join` resolves a path against the text of a base URL that parses.
pub record Host (Bytes Value : Type 0) : Type 0 where
  pub from_utf8 : Bytes → Result String String
  pub parse_action : String → Result String (PluginAction Value)
  pub encode_event : PluginEvent Value → Result String String
  pub spawn : Command → Result String (Child Bytes)
  pub output : ℕ → Command → Option (Result String (Output Bytes))
  pub parse_base : String → Result String String
  pub join : String → String → Result String String
  pub build_client : ℕ → Result String (Unit {0})
  pub post : String → PluginEvent Value → Result String (Response Bytes)

module _ {Bytes Value : Type 0} (host : Host Bytes Value) where
  -- `PluginAction::from_stdout_bytes`
  unfoldable pub from_stdout_bytes : Bytes → Result PluginError (Option (PluginAction Value))
  from_stdout_bytes bytes = do
    body ← map_err (λ e. invalid_utf8 ("invalid utf8 payload: " <> e)) (host.from_utf8 bytes)
    if is_blank body then ok none else (do
      action ←
          map_err (λ e. deserialize ("invalid plugin action payload: " <> e))
            (host.parse_action (trim body))
      ok (some action))

  -- The end of a call of a process: time limit, failed wait, exit status, answer.
  read_output :
      (timeout_ms : ℕ) (refusal : String)
      → Option (Result String (Output Bytes))
      → Result PluginError (Option (PluginAction Value))
  unfolding from_stdout_bytes
  read_output timeout_ms refusal none = err (timeout timeout_ms)
  read_output timeout_ms refusal (some (err e)) = err (io e)
  read_output timeout_ms refusal (some (ok output)) =
      if output.success then from_stdout_bytes output.stdout else err (transport refusal)

  -- What a rust plugin reads from its standard input.
  write_event : Child Bytes → Option (PluginEvent Value) → Result PluginError (Option String)
  write_event child none = ok none
  write_event child (some event) = do
    body ← map_err serialize (host.encode_event event)
    map_err io (child.write_all body)
    ok (some body)

  -- `RustPlugin::run_plugin`
  unfoldable pub run_rust :
      (executable : String) (args : List String) (timeout_ms : ℕ) (phase : String)
      → Option (PluginEvent Value)
      → Result PluginError (Option (PluginAction Value))
  unfolding read_output write_event
  run_rust executable args timeout_ms phase event = do
    child ←
        map_err
          (λ e. runtime_unavailable ("cannot spawn rust plugin " <> (executable <> (": " <> e))))
          (host.spawn (record { program = executable; phase = some phase; args = args }))
    written ← write_event child event
    read_output timeout_ms "rust plugin returned non-zero exit code" (child.wait written)

  event_args : Option (PluginEvent Value) → Result PluginError (List String)
  event_args none = ok []
  event_args (some event) = do body ← map_err serialize (host.encode_event event); ok (body ∷ [])

  -- `WasmPlugin::run_plugin`
  unfoldable pub run_wasm :
      (wasm_file entrypoint : String) (timeout_ms : ℕ)
      → Option (PluginEvent Value)
      → Result PluginError (Option (PluginAction Value))
  unfolding read_output event_args
  run_wasm wasm_file entrypoint timeout_ms event = do
    body ← event_args event
    read_output timeout_ms "wasm plugin runtime failed" (
        host.output timeout_ms (record {
          program = "wasmtime";
          phase = none;
          args = "run" ∷ "--invoke" ∷ entrypoint ∷ wasm_file ∷ body;
        }))

  -- `HttpPlugin::request`
  unfoldable pub request :
      (endpoint : String) (timeout_ms : ℕ) (path : String)
      → PluginEvent Value
      → Result PluginError (Option (PluginAction Value))
  unfolding from_stdout_bytes
  request endpoint timeout_ms path event = do
    base ←
        map_err (λ e. invalid_source ("invalid plugin endpoint " <> (endpoint <> (": " <> e))))
          (host.parse_base endpoint)
    target ←
        map_err (λ e. transport ("http plugin endpoint join failed: " <> e)) (host.join base path)
    map_err transport (host.build_client timeout_ms)
    response ← map_err transport (host.post target event)
    if response.is_success
        then (do body ← map_err transport response.bytes; from_stdout_bytes body)
        else err (transport ("http plugin status " <> response.status))

  abbrev discard : Result PluginError (Option (PluginAction Value)) → Result PluginError (Unit {0})
  discard (ok answer) = ok tt
  discard (err e) = err e

  unfoldable pub load_rust :
      (executable : String) (args : List String) (timeout_ms : ℕ) → Result PluginError (Unit {0})
  unfolding run_rust
  load_rust executable args timeout_ms = discard (run_rust executable args timeout_ms "load" none)

  unfoldable pub unload_rust :
      (executable : String) (args : List String) (timeout_ms : ℕ) → Result PluginError (Unit {0})
  unfolding run_rust
  unload_rust executable args timeout_ms =
      discard (run_rust executable args timeout_ms "unload" none)

  unfoldable pub dispatch_rust :
      (executable : String) (args : List String) (timeout_ms : ℕ)
      → PluginEvent Value
      → Result PluginError (Option (PluginAction Value))
  unfolding run_rust
  dispatch_rust executable args timeout_ms event =
      run_rust executable args timeout_ms "event" (some event)

  unfoldable pub load_wasm :
      (wasm_file entrypoint : String) (timeout_ms : ℕ) → Result PluginError (Unit {0})
  unfolding run_wasm
  load_wasm wasm_file entrypoint timeout_ms =
      discard (run_wasm wasm_file entrypoint timeout_ms none)

  unfoldable pub unload_wasm :
      (wasm_file entrypoint : String) (timeout_ms : ℕ) → Result PluginError (Unit {0})
  unfolding run_wasm
  unload_wasm wasm_file entrypoint timeout_ms =
      discard (run_wasm wasm_file entrypoint timeout_ms none)

  unfoldable pub dispatch_wasm :
      (wasm_file entrypoint : String) (timeout_ms : ℕ)
      → PluginEvent Value
      → Result PluginError (Option (PluginAction Value))
  unfolding run_wasm
  dispatch_wasm wasm_file entrypoint timeout_ms event =
      run_wasm wasm_file entrypoint timeout_ms (some event)

  unfoldable pub load_http : (endpoint : String) (timeout_ms : ℕ) → Result PluginError (Unit {0})
  unfolding request
  load_http endpoint timeout_ms = discard (request endpoint timeout_ms "load" load)

  unfoldable pub unload_http : (endpoint : String) (timeout_ms : ℕ) → Result PluginError (Unit {0})
  unfolding request
  unload_http endpoint timeout_ms = discard (request endpoint timeout_ms "unload" unload)

  unfoldable pub dispatch_http :
      (endpoint : String) (timeout_ms : ℕ)
      → PluginEvent Value
      → Result PluginError (Option (PluginAction Value))
  unfolding request
  dispatch_http endpoint timeout_ms event = request endpoint timeout_ms "event" event

  unfoldable pub load_backend : PluginBackend → Result PluginError (Unit {0})
  unfolding load_rust load_wasm load_http
  load_backend (PluginBackend.rust metadata executable args timeout_ms) =
      load_rust executable args timeout_ms
  load_backend (PluginBackend.wasm metadata wasm_file entrypoint timeout_ms) =
      load_wasm wasm_file entrypoint timeout_ms
  load_backend (PluginBackend.http metadata endpoint timeout_ms) = load_http endpoint timeout_ms

  unfoldable pub unload_backend : PluginBackend → Result PluginError (Unit {0})
  unfolding unload_rust unload_wasm unload_http
  unload_backend (PluginBackend.rust metadata executable args timeout_ms) =
      unload_rust executable args timeout_ms
  unload_backend (PluginBackend.wasm metadata wasm_file entrypoint timeout_ms) =
      unload_wasm wasm_file entrypoint timeout_ms
  unload_backend (PluginBackend.http metadata endpoint timeout_ms) = unload_http endpoint timeout_ms

  unfoldable pub dispatch_backend :
      PluginEvent Value → PluginBackend → Result PluginError (Option (PluginAction Value))
  unfolding dispatch_rust dispatch_wasm dispatch_http
  dispatch_backend event (PluginBackend.rust metadata executable args timeout_ms) =
      dispatch_rust executable args timeout_ms event
  dispatch_backend event (PluginBackend.wasm metadata wasm_file entrypoint timeout_ms) =
      dispatch_wasm wasm_file entrypoint timeout_ms event
  dispatch_backend event (PluginBackend.http metadata endpoint timeout_ms) =
      dispatch_http endpoint timeout_ms event
