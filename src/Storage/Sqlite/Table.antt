-- ===== src/Storage/Sqlite/Table.antt =====
-- A table as a list of rows, which does what the SQL statements say.
use nap_cat_qq_rs.Prelude.{
  ok_injective, ℕ, String, ◌==◌, eq_iff, ◌≡◌, refl, sym, ap, ◌∙◌, Bool, not, ◌&&◌, Option, none,
  some, List, [], ◌∷◌, map, ok, length, is_some, retain, if◌then◌else◌, arith,
}
use mathlib.Core.Option
use nap_cat_qq_rs.Prelude.Int.{pos}
use nap_cat_qq_rs.Text.Sort.{sort}
use nap_cat_qq_rs.Storage.Sqlite.{Row, Sql}
use nap_cat_qq_rs.Storage.Sqlite.Database.{IsSqlite, IsReliable, upserted}

abbrev pub has_name : String → String → Row → Bool
has_name n k row = (row.namespace == n) && (row.record_key == k)

abbrev pub find : List Row → String → String → Option Row
find [] n k = none
find (row ∷ rows) n k = if has_name n k row then some row else find rows n k

abbrev pub without_row : String → String → List Row → List Row
without_row n k rows = retain (λ row. not (has_name n k row)) rows

abbrev pub in_namespace : String → List Row → List Row
in_namespace n rows = retain (λ row. row.namespace == n) rows

-- Values are texts.
abbrev pub table : Sql (List Row) (List Row) String
table = record {
  create_table = λ db. ok db;
  begin = λ db. ok db;
  select_created_at = λ n k db. ok (Option.map (λ row. row.created_at) (find db n k));
  upsert = λ row db. ok (
      upserted (find db row.namespace row.record_key) row
      ∷ without_row row.namespace row.record_key db);
  commit = λ db. ok db;
  select_record = λ n k db. ok (find db n k);
  delete_record = λ n k db. ok (if is_some (find db n k) then 1 else 0, without_row n k db);
  select_keys = λ n db. ok (sort (map (λ row. row.record_key) (in_namespace n db)));
  delete_namespace =
      λ n db. ok (length (in_namespace n db), retain (λ row. not (row.namespace == n)) db);
  select_count = λ n db. ok (pos (length (in_namespace n db)));
  to_json = λ value. ok value;
  from_json = λ text. ok text;
}

pub find-names :
    (db : List Row) (n k : String) (row : Row)
    → find db n k ≡ some row
    → (row.namespace ≡ n) × (row.record_key ≡ k)
find-names [] n k row h = cc
find-names (first ∷ rows) n k row h =
    ground (arith, find-names rows n k row, eq_iff first.namespace n, eq_iff first.record_key k, h)

pub find-without :
    (db : List Row) (n k m j : String)
    → find (without_row n k db) m j ≡ (if (n == m) && (k == j) then none else find db m j)
unfolding retain
find-without [] n k m j = ground arith
find-without (row ∷ rows) n k m j = ground (
  arith,
  find-without rows n k m j,
  eq_iff n m,
  eq_iff k j,
  eq_iff row.namespace n,
  eq_iff row.record_key k,
  eq_iff row.namespace m,
  eq_iff row.record_key j,
)

pub find-cleared :
    (db : List Row) (n m j : String)
    → find (retain (λ row. not (row.namespace == n)) db) m j
      ≡ (if m == n then none else find db m j)
unfolding retain
find-cleared [] n m j = ground arith
find-cleared (row ∷ rows) n m j =
    ground
      (arith, find-cleared rows n m j, eq_iff m n, eq_iff row.namespace n, eq_iff row.namespace m)

upserted-names :
    (db : List Row) (row : Row)
    → let after = upserted (find db row.namespace row.record_key) row in
      (after.namespace ≡ row.namespace) × (after.record_key ≡ row.record_key)
upserted-names db row = go (find db row.namespace row.record_key) refl
  where
    go :
        (old : Option Row)
        → find db row.namespace row.record_key ≡ old
        → ((upserted old row).namespace ≡ row.namespace)
          × ((upserted old row).record_key ≡ row.record_key)
    go none h = (refl, refl)
    go (some old) h = find-names db row.namespace row.record_key old h

pub find-upsert :
    (row : Row) (db : List Row) (n k : String)
    → find
        (upserted (find db row.namespace row.record_key) row
          ∷ without_row row.namespace row.record_key db)
        n
        k
      ≡ (if (row.namespace == n) && (row.record_key == k)
          then some (upserted (find db row.namespace row.record_key) row)
          else find db n k)
find-upsert row db n k =
    let (a, b) = upserted-names db row in
    rw (a, b) (ground (arith, find-without db row.namespace row.record_key n k))

unfoldable pub table-IsSqlite : IsSqlite table
table-IsSqlite = record {
  view = find;
  view_tx = find;
  begins = λ db tx n k h. ap (λ d. find d n k) (sym (ok_injective db tx h));
  selects_created = λ n k tx r h. sym (ok_injective _ r h);
  upserts = λ row tx after n k h.
      ap (λ d. find d n k) (sym (ok_injective _ after h)) ∙ find-upsert row tx n k;
  commits = λ tx db n k h. ap (λ d. find d n k) (sym (ok_injective tx db h));
  selects = λ n k db r h. sym (ok_injective _ r h);
  names = find-names;
  deletes = λ n k db after rows h. (
    ap (λ (a : ℕ × List Row). a.0) (sym (ok_injective _ (rows, after) h)),
    λ m j.
        ap (λ (a : ℕ × List Row). find a.1 m j) (sym (ok_injective _ (rows, after) h))
        ∙ find-without db n k m j,
  );
  clears = λ n db after rows h m j.
      ap (λ (a : ℕ × List Row). find a.1 m j) (sym (ok_injective _ (rows, after) h))
      ∙ find-cleared db n m j;
}

pub table-IsReliable : IsReliable table
table-IsReliable = record {
  begins = λ db. (db, refl);
  selects_created = λ n k tx. (_, refl);
  upserts = λ row tx. (_, refl);
  commits = λ tx. (tx, refl);
  selects = λ n k db. (_, refl);
  deletes = λ n k db. (_, _, refl);
  clears = λ n db. (_, _, refl);
}
