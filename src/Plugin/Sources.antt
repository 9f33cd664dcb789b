-- ===== src/Plugin/Sources.antt =====
-- How a definition's source is validated into a backend: paths, the endpoint and the time limit.
use nap_cat_qq_rs.Prelude.{
  ◌≡◌, refl, ◌≤◌, ◌/◌, ◌%◌, arith, ℕ, String, ◌<>◌, ◌==◌, Bool, false, ◌||◌, Option, none, some,
  Result, ok, err, ◌>>=◌, ◌>>◌, map_err, leb, eqb, ◌&&◌, if◌then◌else◌,
}
use nap_cat_qq_rs.Plugin.{
  PluginMetadata, PluginSource, PluginDefinition, PluginError, invalid_source, runtime_unavailable,
  PluginBackend, metadata_of, timeout_of,
}

-- A parsed URL: its scheme and its text.
pub record Url : Type 0 where
  pub scheme : String
  pub text : String

-- The file system and the URL parser. `stat` tells a file from anything else, `mode` is its
-- permission bits, and an error is its text.
pub record Files : Type 0 where
  pub canonicalize : String → Result String String
  pub stat : String → Result String Bool
  pub mode : String → Result String ℕ
  pub extension : String → Option String
  pub parse_url : String → Result String Url

abbrev pub max_plugin_timeout_ms : ℕ
max_plugin_timeout_ms = 60000

abbrev pub min_plugin_timeout_ms : ℕ
min_plugin_timeout_ms = 10

unfoldable pub validate_plugin_path : Files → String → Result PluginError String
validate_plugin_path files path = do
  normalized ←
      map_err (λ e. invalid_source ("cannot canonicalize plugin path " <> (path <> (": " <> e))))
        (files.canonicalize path)
  is_file ←
      map_err (λ e. invalid_source ("cannot stat plugin path " <> (path <> (": " <> e))))
        (files.stat normalized)
  if is_file then ok normalized else err (invalid_source ("plugin path is not a file: " <> path))

unfoldable pub validate_http_endpoint : Files → String → Result PluginError String
validate_http_endpoint files endpoint = do
  parsed ←
      map_err (λ e. invalid_source ("invalid plugin endpoint " <> (endpoint <> (": " <> e))))
        (files.parse_url endpoint)
  if parsed.scheme == "http" || parsed.scheme == "https"
      then ok parsed.text
      else err (
          invalid_source
            ("unsupported plugin endpoint scheme `" <> (parsed.scheme <> "`, expected http/https")))

unfoldable pub validate_timeout : ℕ → Result PluginError ℕ
validate_timeout timeout_ms =
    if leb min_plugin_timeout_ms timeout_ms && leb timeout_ms max_plugin_timeout_ms
    then ok timeout_ms
    else err (invalid_source "plugin timeout must be in range [10, 60000] ms")

-- `mode & 0o111 != 0`
unfoldable pub is_executable : ℕ → Bool
is_executable mode = eqb (mode % 2) 1 || eqb ((mode / 8) % 2) 1 || eqb ((mode / 64) % 2) 1

-- `RustPlugin::validate_path`
unfoldable pub validate_rust_path : Files → String → Result PluginError (Unit {0})
unfolding validate_plugin_path is_executable
validate_rust_path files path = do
  validated ← validate_plugin_path files path
  mode ←
      map_err (λ e. invalid_source ("rust plugin executable metadata invalid: " <> e))
        (files.mode validated)
  if is_executable mode
      then ok tt
      else err (invalid_source ("rust plugin executable not executable: " <> validated))

-- `Path::is_file`
unfoldable pub is_file : Files → String → Bool
is_file files path = elim (files.stat path) [ ok found ↦ found | err e ↦ false ]

has_wasm_extension : Option String → Bool
has_wasm_extension none = false
has_wasm_extension (some extension) = extension == "wasm"

-- `WasmPlugin::validate_path`
unfoldable pub validate_wasm_path : Files → String → Result PluginError (Unit {0})
unfolding validate_plugin_path is_file has_wasm_extension
validate_wasm_path files path = do
  validated ← validate_plugin_path files path
  if is_file files validated
      then (if has_wasm_extension (files.extension validated)
          then ok tt
          else err (invalid_source ("wasm module must use .wasm extension: " <> validated)))
      else err (runtime_unavailable ("wasm module missing: " <> path))

build : Files → PluginMetadata → PluginSource → Result PluginError PluginBackend
unfolding validate_plugin_path validate_rust_path validate_wasm_path validate_http_endpoint
    validate_timeout
build files metadata (PluginSource.rust executable args timeout_ms) = do
  path ← validate_plugin_path files executable
  validate_rust_path files path
  limit ← validate_timeout timeout_ms
  ok (PluginBackend.rust metadata path args limit)
build files metadata (PluginSource.wasm wasm_file entrypoint timeout_ms) = do
  path ← validate_plugin_path files wasm_file
  validate_wasm_path files path
  limit ← validate_timeout timeout_ms
  ok (PluginBackend.wasm metadata path entrypoint limit)
build files metadata (PluginSource.http endpoint timeout_ms) = do
  url ← validate_http_endpoint files endpoint
  limit ← validate_timeout timeout_ms
  ok (PluginBackend.http metadata url limit)

unfoldable pub backend_from_definition : Files → PluginDefinition → Result PluginError PluginBackend
unfolding build
backend_from_definition files definition = build files definition.metadata definition.source

-- A backend is built with the metadata of its definition and a time limit between 10 ms and 60 s.
abbrev pub IsBuilt : PluginMetadata → PluginBackend → Type 0
IsBuilt metadata backend =
    (metadata_of backend ≡ metadata)
    × (min_plugin_timeout_ms ≤ timeout_of backend)
    × (timeout_of backend ≤ max_plugin_timeout_ms)

abbrev pub Builds : PluginMetadata → Result PluginError PluginBackend → Type 0
Builds metadata (ok backend) = IsBuilt metadata backend
Builds metadata (err e) = Unit {0}

timeout_built :
    (metadata : PluginMetadata) (timeout_ms : ℕ) (make : ℕ → PluginBackend)
    → ((limit : ℕ) → (metadata_of (make limit) ≡ metadata) × (timeout_of (make limit) ≡ limit))
    → Builds metadata (validate_timeout timeout_ms >>= λ limit. ok (make limit))
unfolding validate_timeout
timeout_built metadata timeout_ms make h = ground (arith, h timeout_ms)

bind-Builds :
    {A : Type 0} (metadata : PluginMetadata) (r : Result PluginError A)
    (next : A → Result PluginError PluginBackend)
    → ((a : A) → Builds metadata (next a))
    → Builds metadata (r >>= next)
bind-Builds metadata (ok a) next h = h a
bind-Builds metadata (err e) next h = tt

build-Builds :
    (files : Files) (metadata : PluginMetadata) (source : PluginSource)
    → Builds metadata (build files metadata source)
unfolding build metadata_of timeout_of
build-Builds files metadata (PluginSource.rust executable args timeout_ms) =
    bind-Builds metadata _ _ (λ path. bind-Builds metadata (validate_rust_path files path) _ (λ _.
      timeout_built metadata timeout_ms (PluginBackend.rust metadata path args)
        (λ limit. (refl, refl))))
build-Builds files metadata (PluginSource.wasm wasm_file entrypoint timeout_ms) =
    bind-Builds metadata _ _ (λ path. bind-Builds metadata (validate_wasm_path files path) _ (λ _.
      timeout_built metadata timeout_ms (PluginBackend.wasm metadata path entrypoint)
        (λ limit. (refl, refl))))
build-Builds files metadata (PluginSource.http endpoint timeout_ms) =
    bind-Builds metadata _ _ (λ url.
      timeout_built metadata timeout_ms (PluginBackend.http metadata url) (λ limit. (refl, refl)))

pub backend-Builds :
    (files : Files) (definition : PluginDefinition)
    → Builds definition.metadata (backend_from_definition files definition)
unfolding backend_from_definition build
backend-Builds files definition = build-Builds files definition.metadata definition.source
