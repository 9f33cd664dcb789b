-- ===== src/Storage/Sqlite/Steps.antt =====
-- What a `put` of `SqliteStore` that succeeds went through.
use nap_cat_qq_rs.Prelude.{
  bind-ok, map_err-ok, ℕ, String, ◌≡◌, ap, ◌∙◌, Option, Result, ok, err, map_err, arith,
}
use nap_cat_qq_rs.Prelude.Int.{ℤ}
use nap_cat_qq_rs.Storage.{StorageError, database, serde, validate_namespace_and_key}
use nap_cat_qq_rs.Storage.Sqlite.{Row, Sql, as_i64, first_write, leaving, put}

module _ {Db Tx Value : Type 0} (sql : Sql Db Tx Value) where
  -- The steps of a `put` that succeeds.
  pub record IsPut (namespace key : String) (value : Value) (now : ℕ) (db after : Db) : Type 0 where
    pub payload : String
    pub created_at : ℕ
    pub tx : Tx
    pub written : Tx
    pub existing : Option ℤ
    pub valid : validate_namespace_and_key namespace key ≡ ok tt
    pub encoded : sql.to_json value ≡ ok payload
    pub began : sql.begin db ≡ ok tx
    pub found : sql.select_created_at namespace key tx ≡ ok existing
    pub first : first_write existing now ≡ ok created_at
    pub wrote :
        sql.upsert
          (record {
            namespace = namespace;
            record_key = key;
            value = payload;
            created_at = as_i64 created_at;
            updated_at = as_i64 now;
          })
          tx
        ≡ ok written
    pub committed : sql.commit written ≡ ok after

  leaving-ok :
      {A : Type 0} (db : Db) (r : Result StorageError (A × Db)) (a : A) (after : Db)
      → leaving db r ≡ (ok a, after)
      → r ≡ ok (a, after)
  unfolding leaving
  leaving-ok db (ok (b, other)) a after h = ground arith
  leaving-ok db (err e) a after h = ground arith

  same_db :
      (last after : Db)
      → ◌≡◌ {A = Result StorageError (Unit {0} × Db)} (ok (tt, last)) (ok (tt, after))
      → last ≡ after
  same_db last after h = ground (arith, h)

  pub put-steps :
      (namespace key : String) (value : Value) (now : ℕ) (db after : Db)
      → put sql namespace key value now db ≡ (ok tt, after)
      → IsPut namespace key value now db after
  unfolding put
  put-steps namespace key value now db after h =
      let body = leaving-ok db _ tt after h in
      let (u, valid, after_valid) = bind-ok (validate_namespace_and_key namespace key) _ _ body in
      let (payload, encoded, after_encoded) =
        bind-ok (map_err serde (sql.to_json value)) _ _ after_valid in
      let (tx, began, after_began) = bind-ok (map_err database (sql.begin db)) _ _ after_encoded in
      let (existing, found, after_found) =
        bind-ok (map_err database (sql.select_created_at namespace key tx)) _ _ after_began in
      let (created_at, first, after_first) = bind-ok (first_write existing now) _ _ after_found in
      let row : Row = record {
        namespace = namespace;
        record_key = key;
        value = payload;
        created_at = as_i64 created_at;
        updated_at = as_i64 now;
      } in
      let (written, wrote, after_wrote) =
        bind-ok (map_err database (sql.upsert row tx)) _ _ after_first in
      let (last, committed, done) =
        bind-ok (map_err database (sql.commit written)) _ _ after_wrote in
      record {
        payload = payload;
        created_at = created_at;
        tx = tx;
        written = written;
        existing = existing;
        valid = valid;
        encoded = map_err-ok serde (sql.to_json value) payload encoded;
        began = map_err-ok database (sql.begin db) tx began;
        found = map_err-ok database (sql.select_created_at namespace key tx) existing found;
        first = first;
        wrote = map_err-ok database (sql.upsert row tx) written wrote;
        committed =
            map_err-ok database (sql.commit written) last committed
            ∙ ap ok (same_db last after done);
      }
