-- ===== src/Storage/Paths/Laws.antt =====
-- Where the database of a path is opened.
use nap_cat_qq_rs.Prelude.{
  String, ◌<>◌, ◌≡◌, ◌≢◌, refl, sym, ap, ◌∙◌, Bool, true, false, Option, none, some, arith, Result,
  ok, err, ◌>>=◌, map_err, ok_or, ok_injective, Bool-cases, inl, inr, if◌then◌else◌,
}
use nap_cat_qq_rs.OsPath.{PathBuf, is_separator, of_str, to_str, is_absolute, is_text}
use nap_cat_qq_rs.OsPath.Laws.{to_str_inverse, is_text_inverse}
use nap_cat_qq_rs.Storage.{StorageError, validation, database}
use nap_cat_qq_rs.Storage.Paths.{
  Machine, SqliteStore, storage_url_from_path, absolute, resolve_sqlite_path, open_store, new,
}
use nap_cat_qq_rs.Storage.Paths.Resolve.{
  IsReady, Resolves, refused, unmade, in_memory, on_disk, resolve_sqlite_path-Resolves,
}

-- The store that a pool makes.
store_of :
    {Db : Type 0}
    → (db_url : String) → PathBuf
    → Result String Db
    → Result StorageError (SqliteStore Db)
store_of db_url path opened = do
  pool ←
      map_err (λ e. database ("open sqlite backend at `" <> (db_url <> ("` failed: " <> e)))) opened
  ok (record { pool = pool; db_path = path })

pool_opened :
    {Disk Db : Type 0} (db_url : String) (path : PathBuf) (store : SqliteStore Db) (after : Disk)
    (r : Result String Db × Disk)
    → ◌≡◌ {A = Result StorageError (SqliteStore Db) × Disk}
        (store_of db_url path r.0, r.1)
        (ok store, after)
    → (store.db_path ≡ path) × (r ≡ (ok store.pool, after))
unfolding store_of
pool_opened {Disk} {Db} db_url path store after (ok pool, later) h =
    let e = ok_injective _ _ (ap (λ (p : Result StorageError (SqliteStore Db) × Disk). p.0) h) in
    (sym (ap (λ (s : SqliteStore Db). s.db_path) e), ground (arith, h))
pool_opened db_url path store after (err e, later) h = cc

url_text :
    (path : PathBuf) (o : Option String) (absolute : Bool) (url : String)
    → to_str path ≡ o
    → absolute ≡ true
    → ok_or o (validation "database path contains non-utf8 characters") >>= (λ path_text. ok (
        if absolute
        then "sqlite:" <> (path_text <> "?mode=rwc")
        else "sqlite://" <> (path_text <> "?mode=rwc")))
      ≡ ok url
    → (text : String) × (path ≡ of_str text) × (url ≡ "sqlite:" <> (text <> "?mode=rwc"))
url_text path none absolute url e h k = cc
url_text path (some text) absolute url e h k =
    (text, to_str_inverse path text e, ground (arith, h, k))

memory_is_relative : (path : PathBuf) → is_absolute path ≡ true → path ≢ of_str ":memory:"
unfolding is_absolute of_str is_separator
memory_is_relative path h e = let not_absolute : false ≡ true = sym (ap is_absolute e) ∙ h in cc

url_on_disk :
    (path : PathBuf) (url : String)
    → is_absolute path ≡ true
    → storage_url_from_path path ≡ ok url
    → (text : String) × (path ≡ of_str text) × (url ≡ "sqlite:" <> (text <> "?mode=rwc"))
unfolding storage_url_from_path
url_on_disk path url h k = elim (Bool-cases (is_text path ":memory:")) [
  | inl named ↦ elim (memory_is_relative path h (is_text_inverse path _ named)) [ ]
  | inr file ↦ url_text path (to_str path) (is_absolute path) url refl h (ground (arith, file, k))
]

url_in_memory : storage_url_from_path (of_str ":memory:") ≡ ok "sqlite::memory:"
unfolding storage_url_from_path of_str is_text to_str
url_in_memory = refl

module _ {Disk Db : Type 0} (machine : Machine Disk Db) where
  -- A database on disk, and where the pool of a store reaches it.
  pub data IsOpened (disk : Disk) (store : SqliteStore Db) (after : Disk) : Type 0 where
    opened_in_memory :
        store.db_path ≡ of_str ":memory:"
        → machine.open_pool "sqlite::memory:" disk ≡ (ok store.pool, after)
        → IsOpened disk store after
    opened_on_disk :
        (path : String) (ready : Disk)
        → store.db_path ≡ of_str path
        → is_absolute (of_str path) ≡ true
        → IsReady machine (of_str path) disk ready
        → machine.open_pool ("sqlite:" <> (path <> "?mode=rwc")) ready ≡ (ok store.pool, after)
        → IsOpened disk store after

  opened_at :
      (db_url : String) (path : PathBuf) (u : Result StorageError String) (disk after : Disk)
      (store : SqliteStore Db)
      → open_store machine db_url path u disk ≡ (ok store, after)
      → (url : String) × (u ≡ ok url)
        × (store.db_path ≡ path)
        × (machine.open_pool url disk ≡ (ok store.pool, after))
  unfolding open_store store_of
  opened_at db_url path (err e) disk after store h = cc
  opened_at db_url path (ok url) disk after store h =
      let (p, o) = pool_opened db_url path store after (machine.open_pool url disk) h in
      (url, refl, p, o)

  opens :
      (db_url : String) (disk after : Disk) (store : SqliteStore Db)
      (r : Result StorageError PathBuf × Disk)
      → Resolves machine disk r
      → (elim r.0 [
        | err e ↦ (err e, r.1)
        | ok db_path ↦ open_store machine db_url db_path (storage_url_from_path db_path) r.1
      ])
        ≡ (ok store, after)
      → IsOpened disk store after
  unfolding open_store
  opens db_url disk after store _ (refused e) h = cc
  opens db_url disk after store _ (unmade dir e made) h = cc
  opens db_url disk after store _ in_memory h =
      let (url, e, p, o) = opened_at db_url _ _ disk after store h in
      opened_in_memory p (rw (ok_injective _ _ (sym url_in_memory ∙ e)) o)
  opens db_url disk after store _ (on_disk path {after = ready} absolute_path made) h =
      let (url, e, p, o) = opened_at db_url path _ ready after store h in
      let (text, t, w) = url_on_disk path url absolute_path e in
      opened_on_disk text ready (p ∙ t) (rw (← t) absolute_path) (rw (← t) made) (rw (← w) o)

  -- With an absolute working directory, a store that `SqliteStore::new` opens is the pool of
  -- `sqlite::memory:` with the file system left alone, or the pool of
  -- `sqlite:{path}?mode=rwc` for the absolute path of the store, whose directory was made first.
  pub new-IsOpened :
      (db_url : String) (disk after : Disk) (store : SqliteStore Db)
      → ((dir : PathBuf) → machine.current_dir ≡ ok dir → is_absolute dir ≡ true)
      → new machine db_url disk ≡ (ok store, after)
      → IsOpened disk store after
  unfolding new
  new-IsOpened db_url disk after store rooted h =
      opens db_url disk after store (resolve_sqlite_path machine db_url disk)
        (resolve_sqlite_path-Resolves machine rooted db_url disk) h
