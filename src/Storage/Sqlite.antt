-- ===== src/Storage/Sqlite.antt =====
-- `SqliteStore` of napcat-rs/crates/storage: the `Storage` that keeps its records in a table. What
-- sqlx answers to each statement, with the columns that are read from its rows, and what serde_json
-- does to values is the record `Sql`; a transaction that is dropped leaves the database as it was.
-- `Tx` is an open transaction.
mod Database
mod Steps
mod Laws
mod Agreement
mod Calls
mod History
mod Interchange
mod Table
mod Tests
use nap_cat_qq_rs.Prelude.{
  ℕ, ◌-◌, ◌^◌, ltb, String, ◌<>◌, Bool, true, false, Option, none, some, List, Result, ok, err,
  ◌>>=◌, ◌>>◌, map_err, if◌then◌else◌,
}
use nap_cat_qq_rs.Prelude.Int.{ℤ, pos, negsuc}
use nap_cat_qq_rs.Storage.{
  StorageError, database, serde, internal, StoredRecord, validate_namespace,
  validate_namespace_and_key,
}

-- A row of the table.
pub record Row : Type 0 where
  pub namespace : String
  pub record_key : String
  pub value : String
  pub created_at : ℤ
  pub updated_at : ℤ

pub record Sql (Db Tx Value : Type 0) : Type 0 where
  pub create_table : Db → Result String Db
  pub begin : Db → Result String Tx
  pub select_created_at : String → String → Tx → Result String (Option ℤ)
  pub upsert : Row → Tx → Result String Tx
  pub commit : Tx → Result String Db
  pub select_record : String → String → Db → Result String (Option Row)
  pub delete_record : String → String → Db → Result String (ℕ × Db)
  pub select_keys : String → Db → Result String (List String)
  pub delete_namespace : String → Db → Result String (ℕ × Db)
  pub select_count : String → Db → Result String ℤ
  pub to_json : Value → Result String String
  pub from_json : String → Result String Value

-- `as i64` of 64 bits without a sign.
unfoldable pub as_i64 : ℕ → ℤ
as_i64 n = if ltb n (2 ^ 63) then pos n else negsuc (2 ^ 64 - 1 - n)

-- `u64::try_from` of 64 bits with a sign.
unfoldable pub u64_from : ℤ → Result String ℕ
u64_from (pos n) = ok n
u64_from (negsuc n) = err "out of range integral type conversion attempted"

-- The time of the first write, if there is a row.
unfoldable pub first_write : Option ℤ → (now : ℕ) → Result StorageError ℕ
unfolding u64_from
first_write none now = ok now
first_write (some raw) now =
    map_err (λ e. internal ("invalid created_at value in sqlite: " <> e)) (u64_from raw)

-- The answer of an operation, and the database that it leaves.
leaving : {Db A : Type 0} → Db → Result StorageError (A × Db) → Result StorageError A × Db
leaving db (ok (a, after)) = (ok a, after)
leaving db (err e) = (err e, db)

module _ {Db Tx Value : Type 0} (sql : Sql Db Tx Value) where
  unfoldable pub initialize : (db_path : String) → Db → Result StorageError (Unit {0}) × Db
  unfolding leaving
  initialize db_path db = leaving db (do
    after ←
        map_err (λ e. database ("initialize sqlite table at `" <> (db_path <> ("` failed: " <> e))))
          (sql.create_table db)
    ok (tt, after))

  -- `SqliteStore::record_to_entry`, once the columns are read.
  unfoldable pub record_to_entry : Row → Result StorageError (StoredRecord Value)
  unfolding u64_from
  record_to_entry row = do
    value ←
        map_err
          (λ e. serde (
            "deserialize stored record for `"
            <> (row.namespace <> (":" <> (row.record_key <> ("` failed: " <> e))))))
          (sql.from_json row.value)
    created_at ←
        map_err (λ e. internal ("invalid created_at value: " <> e)) (u64_from row.created_at)
    updated_at ←
        map_err (λ e. internal ("invalid updated_at value: " <> e)) (u64_from row.updated_at)
    ok (record {
      namespace = row.namespace;
      key = row.record_key;
      value = value;
      created_at = created_at;
      updated_at = updated_at;
    })

  unfoldable pub put :
      String → String → Value → (now : ℕ) → Db → Result StorageError (Unit {0}) × Db
  unfolding leaving first_write as_i64
  put namespace key value now db = leaving db (do
    validate_namespace_and_key namespace key
    payload ← map_err serde (sql.to_json value)
    tx ← map_err database (sql.begin db)
    existing ← map_err database (sql.select_created_at namespace key tx)
    created_at ← first_write existing now
    written ← map_err database (
        sql.upsert
          (record {
            namespace = namespace;
            record_key = key;
            value = payload;
            created_at = as_i64 created_at;
            updated_at = as_i64 now;
          })
          tx)
    after ← map_err database (sql.commit written)
    ok (tt, after))

  unfoldable pub entry_of : Option Row → Result StorageError (Option (StoredRecord Value))
  unfolding record_to_entry
  entry_of none = ok none
  entry_of (some row) = do entry ← record_to_entry row; ok (some entry)

  unfoldable pub get : String → String → Db → Result StorageError (Option (StoredRecord Value))
  unfolding entry_of
  get namespace key db = do
    validate_namespace_and_key namespace key
    row ← map_err database (sql.select_record namespace key db)
    entry_of row

  unfoldable pub remove : String → String → Db → Result StorageError Bool × Db
  unfolding leaving
  remove namespace key db = leaving db (do
    validate_namespace_and_key namespace key
    result ← map_err database (sql.delete_record namespace key db)
    ok (ltb 0 result.0, result.1))

  unfoldable pub keys : String → Db → Result StorageError (List String)
  keys namespace db = do
    validate_namespace namespace
    map_err database (sql.select_keys namespace db)

  unfoldable pub clear_namespace : String → Db → Result StorageError ℕ × Db
  unfolding leaving
  clear_namespace namespace db =
      leaving db
        (do validate_namespace namespace; map_err database (sql.delete_namespace namespace db))

  unfoldable pub count_namespace : String → Db → Result StorageError ℕ
  unfolding u64_from
  count_namespace namespace db = do
    validate_namespace namespace
    count ← map_err database (sql.select_count namespace db)
    map_err (λ e. internal ("invalid count value: " <> e)) (u64_from count)
