-- ===== src/Storage/Sqlite/Laws.antt =====
-- `SqliteStore` over a database that does what its SQL statements say.
use nap_cat_qq_rs.Prelude.{
  map_err-ok, ℕ, ◌^◌, ◌<◌, String, ◌==◌, ◌≡◌, refl, ap, Bool, true, false, ◌&&◌, Option, none, some,
  ok, ◌>>=◌, if◌then◌else◌, arith,
}
use mathlib.Core.Option
use nap_cat_qq_rs.Storage.Sqlite.Database.{upserted, IsSqlite}
use nap_cat_qq_rs.Storage.Sqlite.Steps.{IsPut}
use nap_cat_qq_rs.Storage.Sqlite.{
  Row, Sql, as_i64, u64_from, first_write, record_to_entry, entry_of,
}

as_i64-u64_from : (n : ℕ) → n < 2 ^ 63 → u64_from (as_i64 n) ≡ ok n
unfolding as_i64 u64_from
as_i64-u64_from n h = ground arith

-- The row that is there, if there is one, has the name.
abbrev IsNamed : Option Row → String → String → Type 0
IsNamed none n k = Unit {0}
IsNamed (some row) n k = (row.namespace ≡ n) × (row.record_key ≡ k)

module _ {Db Tx Value : Type 0} (sql : Sql Db Tx Value) (law : IsSqlite sql) where
  record_to_entry-ok :
      (row : Row) (value : Value) (created updated : ℕ)
      → sql.from_json row.value ≡ ok value
      → u64_from row.created_at ≡ ok created
      → u64_from row.updated_at ≡ ok updated
      → record_to_entry sql row
        ≡ ok (record {
          namespace = row.namespace;
          key = row.record_key;
          value = value;
          created_at = created;
          updated_at = updated;
        })
  unfolding record_to_entry
  record_to_entry-ok row value created updated v c u = rw (record_to_entry, v, c, u) refl

  entry_of-upserted :
      (old : Option Row) (a k payload : String) (value : Value) (created now : ℕ)
      → IsNamed old a k
      → first_write (Option.map (λ row. row.created_at) old) now ≡ ok created
      → now < 2 ^ 63
      → sql.from_json payload ≡ ok value
      → entry_of sql (
          some (
            upserted old (record {
              namespace = a;
              record_key = k;
              value = payload;
              created_at = as_i64 created;
              updated_at = as_i64 now;
            })))
        ≡ ok (
            some (record {
              namespace = a;
              key = k;
              value = value;
              created_at = created;
              updated_at = now;
            }))
  unfolding entry_of record_to_entry first_write
  entry_of-upserted none a k payload value created now named first small decoded =
      let same : now ≡ created = ground (arith, first) in
      ap (λ entry. entry >>= λ e. ok (some e))
        (record_to_entry-ok _ value created now decoded
          (as_i64-u64_from created (rw (← same) small)) (as_i64-u64_from now small))
  entry_of-upserted (some old) a k payload value created now named first small decoded =
      rw (← named.0, ← named.1)
        (ap (λ entry. entry >>= λ e. ok (some e))
          (record_to_entry-ok (record old { value = payload; updated_at = as_i64 now }) value
            created now decoded (map_err-ok _ (u64_from old.created_at) created first)
            (as_i64-u64_from now small)))

  pub view-put :
      (a k b l : String) (value : Value) (now : ℕ) (db after : Db)
      (h : IsPut sql a k value now db after)
      → law.view after b l ≡ (
          if (a == b) && (k == l)
          then some (
              upserted (law.view db a k) (record {
                namespace = a;
                record_key = k;
                value = h.payload;
                created_at = as_i64 h.created_at;
                updated_at = as_i64 now;
              }))
          else law.view db b l)
  view-put a k b l value now db after h =
      rw
        (
          law.commits h.written after b l h.committed,
          law.upserts _ h.tx h.written b l h.wrote,
          law.begins db h.tx a k h.began,
          law.begins db h.tx b l h.began,
        )
        refl

  view-IsNamed : (db : Db) (n k : String) → IsNamed (law.view db n k) n k
  view-IsNamed db n k = go (law.view db n k) refl
    where
      go : (row : Option Row) → law.view db n k ≡ row → IsNamed row n k
      go none h = tt
      go (some row) h = law.names db n k row h

  pub first-view :
      (a k : String) (value : Value) (now : ℕ) (db after : Db)
      (h : IsPut sql a k value now db after)
      → first_write (Option.map (λ row. row.created_at) (law.view db a k)) now ≡ ok h.created_at
  first-view a k value now db after h =
      rw (← law.begins db h.tx a k h.began, ← law.selects_created a k h.tx h.existing h.found)
        h.first

  pub entry-put :
      (same : Bool) (a k b l : String) (value : Value) (now : ℕ) (db after : Db)
      (h : IsPut sql a k value now db after)
      → now < 2 ^ 63
      → sql.from_json h.payload ≡ ok value
      → entry_of sql (
          if same
          then some (
              upserted (law.view db a k) (record {
                namespace = a;
                record_key = k;
                value = h.payload;
                created_at = as_i64 h.created_at;
                updated_at = as_i64 now;
              }))
          else law.view db b l)
        ≡ (if same
            then ok (
                some (record {
                  namespace = a;
                  key = k;
                  value = value;
                  created_at = h.created_at;
                  updated_at = now;
                }))
            else entry_of sql (law.view db b l))
  entry-put true a k b l value now db after h small reads =
      entry_of-upserted (law.view db a k) a k h.payload value h.created_at now (view-IsNamed db a k)
        (first-view a k value now db after h) small reads
  entry-put false a k b l value now db after h small reads = refl
