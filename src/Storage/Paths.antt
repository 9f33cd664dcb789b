-- ===== src/Storage/Paths.antt =====
-- `StorageBackend::connect`, `SqliteStore::new` and the paths of databases, in
-- napcat-rs/crates/storage. `Machine` is the working directory, the file system and what
-- `SqlitePool::connect` answers; `Disk` is the state of the file system, and `Db` is an open
-- database.
mod Resolve
mod Laws
mod Rerooted
mod Tests
use Prim.Native.Char.{code}
use nap_cat_qq_rs.Prelude.{
  String, ◌<>◌, ◌==◌, starts_with, Bool, true, false, ◌||◌, Option, none, some, [], ◌∷◌, is_empty,
  Result, ok, err, ◌>>=◌, ◌>>◌, map_err, ok_or, unwrap_or, if◌then◌else◌,
}
use nap_cat_qq_rs.Text.{is_blank}
use nap_cat_qq_rs.Text.Prefix.{strip_prefix, trim_start_matches}
use nap_cat_qq_rs.OsPath.{PathBuf, of_str, to_str, is_absolute, is_text, join, parent, display}
use nap_cat_qq_rs.Storage.{StorageError, validation, io, database, MemoryStore}
use nap_cat_qq_rs.Storage.Sqlite
use nap_cat_qq_rs.Storage.Sqlite.{Sql}

pub data StorageBackend : Type 0 where
  memory : StorageBackend
  sqlite : String → StorageBackend

pub record Machine (Disk Db : Type 0) : Type 0 where
  pub current_dir : Result String PathBuf
  pub create_dir_all : PathBuf → Disk → Result String (Unit {0}) × Disk
  pub open_pool : (url : String) → Disk → Result String Db × Disk

pub record SqliteStore (Db : Type 0) : Type 0 where
  pub pool : Db
  pub db_path : PathBuf

-- What a client holds as `dyn Storage`.
pub data Handle (Value Db : Type 0) : Type 0 where
  memory_store : MemoryStore Value → Handle Value Db
  sqlite_store : SqliteStore Db → Handle Value Db

unfoldable pub storage_url_from_path : PathBuf → Result StorageError String
storage_url_from_path path = if is_text path ":memory:" then ok "sqlite::memory:" else (do
  path_text ← ok_or (to_str path) (validation "database path contains non-utf8 characters")
  ok (
      if is_absolute path
      then "sqlite:" <> (path_text <> "?mode=rwc")
      else "sqlite://" <> (path_text <> "?mode=rwc")))

-- `normalized`
unfoldable pub normalized : String → PathBuf
normalized raw_path =
    let path = trim_start_matches "sqlite://" raw_path in
    if raw_path == "sqlite::memory:"
    then of_str ":memory:"
    else if starts_with raw_path "sqlite://"
    then of_str (unwrap_or (strip_prefix "/" path) path)
    else of_str raw_path

module _ {Disk Db : Type 0} (machine : Machine Disk Db) where
  -- `absolute`
  unfoldable pub absolute : PathBuf → Result StorageError PathBuf
  absolute path =
      if is_absolute path
      then ok path
      else (do dir ← map_err io machine.current_dir; ok (join dir path))

  -- The directory of the path is made, if it has one.
  unfoldable pub make_parent : PathBuf → Disk → Result StorageError PathBuf × Disk
  make_parent path disk = elim (parent path) [
    | none ↦ (ok path, disk)
    | some dir ↦
        let (made, after) = machine.create_dir_all dir disk in (map_err io made >> ok path, after)
  ]

  -- The path is made absolute, and its directory made.
  unfoldable pub place : PathBuf → Disk → Result StorageError PathBuf × Disk
  unfolding absolute make_parent
  place path disk = elim (absolute path) [
    | err e ↦ (err e, disk)
    | ok found ↦ make_parent found disk
  ]

  unfoldable pub resolve_sqlite_path : String → Disk → Result StorageError PathBuf × Disk
  resolve_sqlite_path raw_path disk =
      if is_blank raw_path
      then (err (validation "sqlite path cannot be empty"), disk)
      else if raw_path == ":memory:" || raw_path == "sqlite::memory:"
      then (ok (of_str ":memory:"), disk)
      else if is_empty (normalized raw_path)
      then (err (validation "sqlite path cannot be empty after normalization"), disk)
      else if is_text (normalized raw_path) ":memory:"
      then (ok (normalized raw_path), disk)
      else place (normalized raw_path) disk

  -- `SqlitePool::connect` and the store that it opens.
  open_store :
      (db_url : String)
      → PathBuf
      → Result StorageError String
      → Disk
      → Result StorageError (SqliteStore Db) × Disk
  open_store db_url db_path (err e) disk = (err e, disk)
  open_store db_url db_path (ok url) disk =
      let (opened, after) = machine.open_pool url disk in
      (
        (do
          pool ←
              map_err
                (λ e. database ("open sqlite backend at `" <> (db_url <> ("` failed: " <> e))))
                opened
          ok (record { pool = pool; db_path = db_path })),
        after,
      )

  unfoldable pub new : String → Disk → Result StorageError (SqliteStore Db) × Disk
  unfolding resolve_sqlite_path storage_url_from_path open_store
  new db_url disk =
      let (resolved, after) = resolve_sqlite_path db_url disk in
      elim resolved [
        | err e ↦ (err e, after)
        | ok db_path ↦ open_store db_url db_path (storage_url_from_path db_path) after
      ]

  module _ {Tx Value : Type 0} (sql : Sql Db Tx Value) where
    -- `initialize`; a store that fails to is dropped.
    initialized : SqliteStore Db → Result StorageError (Handle Value Db)
    initialized store =
        let (made, pool) = Sqlite.initialize sql (display store.db_path) store.pool in
        made >> ok (sqlite_store (record store { pool = pool }))

    unfoldable pub connect : StorageBackend → Disk → Result StorageError (Handle Value Db) × Disk
    unfolding new initialized
    connect memory disk = (ok (memory_store (record { values = [] })), disk)
    connect (sqlite path) disk =
        let (opened, after) = new path disk in (opened >>= initialized, after)
