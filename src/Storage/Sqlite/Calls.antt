-- ===== src/Storage/Sqlite/Calls.antt =====
-- The calls of a `Storage` on `SqliteStore`, refused or done.
use nap_cat_qq_rs.Prelude.{
  ℕ, ◌^◌, ◌<◌, String, ◌≡◌, refl, Bool, true, false, Option, none, List, [], ◌∷◌, Result, ok, err,
  ltb, if◌then◌else◌,
}
use nap_cat_qq_rs.Storage.{
  StorageError, StoredRecord, validate_namespace, validate_namespace_and_key,
}
use nap_cat_qq_rs.Storage.Contents.{
  Request, put, get, remove, clear, Answer, done, found, removed_one, Contents, answer_with,
}
use nap_cat_qq_rs.Storage.Sqlite
use nap_cat_qq_rs.Storage.Sqlite.{
  Row, Sql, as_i64, u64_from, first_write, record_to_entry, entry_of,
}
use nap_cat_qq_rs.Storage.Sqlite.Database.{IsSqlite, IsReadBack}

-- The rows of the table decode to the contents.
abbrev pub Decodes :
    {Db Tx Value : Type 0} (sql : Sql Db Tx Value) → IsSqlite sql → Db → Contents Value → Type 0
Decodes sql law db contents = (n k : String) → entry_of sql (law.view db n k) ≡ ok (contents n k)

-- A write reads one clock, below 2^63 s.
abbrev pub AreTimely : {Value : Type 0} → List (Request Value) → Type 0
AreTimely [] = Unit {0}
AreTimely (put namespace key value now later ∷ requests) =
    (later ≡ now) × (now < 2 ^ 63) × AreTimely requests
AreTimely (_ ∷ requests) = AreTimely requests

-- serde_json reads back every value that is put.
abbrev pub AreReadBack : {Db Tx Value : Type 0} → Sql Db Tx Value → List (Request Value) → Type 0
AreReadBack sql [] = Unit {0}
AreReadBack sql (put namespace key value now later ∷ requests) =
    IsReadBack sql value × AreReadBack sql requests
AreReadBack sql (_ ∷ requests) = AreReadBack sql requests

module _ {Db Tx Value : Type 0} (sql : Sql Db Tx Value) where
  -- A call of `SqliteStore`.
  abbrev pub sqlite_call : Request Value → Db → Result StorageError (Answer Value) × Db
  sqlite_call (put namespace key value now later) db =
      let (r, after) = Sqlite.put sql namespace key value now db in
      (answer_with (λ _. done) r, after)
  sqlite_call (get namespace key) db = (answer_with found (Sqlite.get sql namespace key db), db)
  sqlite_call (remove namespace key) db =
      let (r, after) = Sqlite.remove sql namespace key db in (answer_with removed_one r, after)
  sqlite_call (clear namespace) db =
      let (r, after) = Sqlite.clear_namespace sql namespace db in (answer_with (λ _. done) r, after)

  abbrev pub sqlite_answers : List (Request Value) → Db → List (Result StorageError (Answer Value))
  sqlite_answers [] db = []
  sqlite_answers (request ∷ requests) db =
      (sqlite_call request db).0 ∷ sqlite_answers requests (sqlite_call request db).1

pub timely_rest :
    {Value : Type 0} (request : Request Value) (requests : List (Request Value))
    → AreTimely (request ∷ requests)
    → AreTimely requests
timely_rest (put a k value now later) requests (t, small, rest) = rest
timely_rest (get a k) requests timely = timely
timely_rest (remove a k) requests timely = timely
timely_rest (clear a) requests timely = timely

pub read_back_rest :
    {Db Tx Value : Type 0} (sql : Sql Db Tx Value) (request : Request Value)
    (requests : List (Request Value))
    → AreReadBack sql (request ∷ requests)
    → AreReadBack sql requests
read_back_rest sql (put a k value now later) requests (this, rest) = rest
read_back_rest sql (get a k) requests back = back
read_back_rest sql (remove a k) requests back = back
read_back_rest sql (clear a) requests back = back

module _ {Db Tx Value : Type 0} (sql : Sql Db Tx Value) where
  -- A refused call.
  pub put_refused :
      (a k : String) (value : Value) (now : ℕ) (db : Db) (e : StorageError)
      → validate_namespace_and_key a k ≡ err e
      → Sqlite.put sql a k value now db ≡ (err e, db)
  unfolding Sqlite.put
  put_refused a k value now db e h = rw (Sqlite.put, h) refl

  pub remove_refused :
      (a k : String) (db : Db) (e : StorageError)
      → validate_namespace_and_key a k ≡ err e
      → Sqlite.remove sql a k db ≡ (err e, db)
  unfolding Sqlite.remove
  remove_refused a k db e h = rw (Sqlite.remove, h) refl

  pub clear_refused :
      (a : String) (db : Db) (e : StorageError)
      → validate_namespace a ≡ err e
      → Sqlite.clear_namespace sql a db ≡ (err e, db)
  unfolding Sqlite.clear_namespace
  clear_refused a db e h = rw (Sqlite.clear_namespace, h) refl

  -- A call that deletes.
  pub remove_done :
      (a k : String) (db after : Db) (rows : ℕ)
      → validate_namespace_and_key a k ≡ ok tt
      → sql.delete_record a k db ≡ ok (rows, after)
      → Sqlite.remove sql a k db ≡ (ok (ltb 0 rows), after)
  unfolding Sqlite.remove
  remove_done a k db after rows h d = rw (Sqlite.remove, h, d) refl

  pub clear_done :
      (a : String) (db after : Db) (rows : ℕ)
      → validate_namespace a ≡ ok tt
      → sql.delete_namespace a db ≡ ok (rows, after)
      → Sqlite.clear_namespace sql a db ≡ (ok rows, after)
  unfolding Sqlite.clear_namespace
  clear_done a db after rows h d = rw (Sqlite.clear_namespace, h, d) refl

  pub removed_entry :
      (gone : Bool) (row : Option Row) (entry : Option (StoredRecord Value))
      → entry_of sql row ≡ ok entry
      → entry_of sql (if gone then none else row) ≡ ok (if gone then none else entry)
  unfolding entry_of
  removed_entry true row entry h = refl
  removed_entry false row entry h = h
