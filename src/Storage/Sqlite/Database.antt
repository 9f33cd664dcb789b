-- ===== src/Storage/Sqlite/Database.antt =====
-- The database of `SqliteStore`, as far as `put` and `get` rely on it.
use nap_cat_qq_rs.Prelude.{
  ℕ, is_some, String, ◌==◌, ◌≡◌, ◌&&◌, Option, none, some, ok, if◌then◌else◌,
}
use mathlib.Core.Option
use nap_cat_qq_rs.Prelude.Int.{ℤ}
use nap_cat_qq_rs.Storage.Sqlite.{Row, Sql}

-- What `ON CONFLICT DO UPDATE` leaves of a row that is there.
abbrev pub upserted : Option Row → Row → Row
upserted none row = row
upserted (some old) row = record old { value = row.value; updated_at = row.updated_at }

-- The row of a name, in a database and in a transaction, with what the statements do to
-- it, by the documentation of SQLite.
pub record IsSqlite {Db Tx Value : Type 0} (sql : Sql Db Tx Value) : Type 0 where
  pub view : Db → String → String → Option Row
  pub view_tx : Tx → String → String → Option Row
  pub begins :
      (db : Db) (tx : Tx) (n k : String) → sql.begin db ≡ ok tx → view_tx tx n k ≡ view db n k
  pub selects_created :
      (n k : String) (tx : Tx) (r : Option ℤ)
      → sql.select_created_at n k tx ≡ ok r
      → r ≡ Option.map (λ row. row.created_at) (view_tx tx n k)
  pub upserts :
      (row : Row) (tx after : Tx) (n k : String)
      → sql.upsert row tx ≡ ok after
      → view_tx after n k ≡ (
          if (row.namespace == n) && (row.record_key == k)
          then some (upserted (view_tx tx row.namespace row.record_key) row)
          else view_tx tx n k)
  pub commits :
      (tx : Tx) (db : Db) (n k : String) → sql.commit tx ≡ ok db → view db n k ≡ view_tx tx n k
  pub selects :
      (n k : String) (db : Db) (r : Option Row) → sql.select_record n k db ≡ ok r → r ≡ view db n k
  pub names :
      (db : Db) (n k : String) (row : Row)
      → view db n k ≡ some row
      → (row.namespace ≡ n) × (row.record_key ≡ k)
  pub deletes :
      (n k : String) (db after : Db) (rows : ℕ)
      → sql.delete_record n k db ≡ ok (rows, after)
      → (rows ≡ (if is_some (view db n k) then 1 else 0))
        × ((m j : String) → view after m j ≡ (if (n == m) && (k == j) then none else view db m j))
  pub clears :
      (n : String) (db after : Db) (rows : ℕ)
      → sql.delete_namespace n db ≡ ok (rows, after)
      → (m j : String) → view after m j ≡ (if m == n then none else view db m j)

-- serde_json writes the value and reads it back. It does not read back every value that it writes: a
-- float may change in its last digit, and a value that is nested too deeply is refused.
abbrev pub IsReadBack : {Db Tx Value : Type 0} → Sql Db Tx Value → Value → Type 0
IsReadBack sql value =
    (text : String) × (sql.to_json value ≡ ok text) × (sql.from_json text ≡ ok value)

-- A database that refuses no statement.
pub record IsReliable {Db Tx Value : Type 0} (sql : Sql Db Tx Value) : Type 0 where
  pub begins : (db : Db) → (tx : Tx) × (sql.begin db ≡ ok tx)
  pub selects_created :
      (n k : String) (tx : Tx) → (r : Option ℤ) × (sql.select_created_at n k tx ≡ ok r)
  pub upserts : (row : Row) (tx : Tx) → (after : Tx) × (sql.upsert row tx ≡ ok after)
  pub commits : (tx : Tx) → (db : Db) × (sql.commit tx ≡ ok db)
  pub selects : (n k : String) (db : Db) → (r : Option Row) × (sql.select_record n k db ≡ ok r)
  pub deletes :
      (n k : String) (db : Db)
      → (rows : ℕ) × (after : Db) × (sql.delete_record n k db ≡ ok (rows, after))
  pub clears :
      (n : String) (db : Db)
      → (rows : ℕ) × (after : Db) × (sql.delete_namespace n db ≡ ok (rows, after))
