-- ===== src/Storage/Sqlite/Agreement.antt =====
-- The time of the first write in a row and in the entry that it decodes to.
use nap_cat_qq_rs.Prelude.{
  bind-ok, map_err-ok, ok_injective, ℕ, String, ◌≡◌, sym, ap, ◌∙◌, Option, none, some, ok, map_err,
  arith,
}
use mathlib.Core.Option
use mathlib.Core.Option.{some-injective}
use nap_cat_qq_rs.Storage.{StoredRecord}
use nap_cat_qq_rs.Storage.Laws.{entry, written}
use nap_cat_qq_rs.Storage.Sqlite.{Row, Sql, u64_from, first_write, record_to_entry, entry_of}
use nap_cat_qq_rs.Storage.Sqlite.Database.{IsSqlite}

abbrev pub stamped :
    {Value : Type 0} → String → String → Value → (created now : ℕ) → StoredRecord Value
stamped a k value created now = record {
  namespace = a;
  key = k;
  value = value;
  created_at = created;
  updated_at = now;
}

module _ {Db Tx Value : Type 0} (sql : Sql Db Tx Value) (law : IsSqlite sql) where
  pub created-entry :
      (row : Row) (entry : StoredRecord Value)
      → record_to_entry sql row ≡ ok entry
      → u64_from row.created_at ≡ ok entry.created_at
  unfolding record_to_entry
  created-entry row entry h =
      let (value, decoded, after_value) = bind-ok (map_err _ (sql.from_json row.value)) _ _ h in
      let (created, first, after_created) =
        bind-ok (map_err _ (u64_from row.created_at)) _ _ after_value in
      let (updated, second, done) =
        bind-ok (map_err _ (u64_from row.updated_at)) _ _ after_created in
      map_err-ok _ (u64_from row.created_at) created first
      ∙ ap ok (ap (λ (e : StoredRecord Value). e.created_at) (ok_injective _ entry done))

  -- The time of the first write, out of the table and out of the map.
  pub first-agrees :
      (row : Option Row) (entry : Option (StoredRecord Value)) (a k : String) (value : Value)
      (now created : ℕ)
      → entry_of sql row ≡ ok entry
      → first_write (Option.map (λ r. r.created_at) row) now ≡ ok created
      → written entry a k value now now ≡ stamped a k value created now
  unfolding first_write entry_of
  first-agrees none none a k value now created e f =
      ap (λ (c : ℕ). stamped a k value c now) (ok_injective now created f)
  first-agrees none (some entry) a k value now created e f = ground (arith, e)
  first-agrees (some row) none a k value now created e f =
      let (found, h, same) = bind-ok (record_to_entry sql row) _ _ e in ground (arith, same)
  first-agrees (some row) (some entry) a k value now created e f =
      let (found, h, same) = bind-ok (record_to_entry sql row) _ _ e in
      let first = map_err-ok _ (u64_from row.created_at) created f in
      let equal : found ≡ entry = some-injective _ _ (ok_injective _ _ same) in
      ap (λ (c : ℕ). stamped a k value c now)
        (ap (λ (r : StoredRecord Value). r.created_at) (sym equal)
          ∙ ok_injective found.created_at created (sym (created-entry row found h) ∙ first))
