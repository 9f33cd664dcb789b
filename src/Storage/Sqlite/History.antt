-- ===== src/Storage/Sqlite/History.antt =====
-- `SqliteStore` keeps the contract of a `Storage`, over a database that does what its statements say
-- and refuses none.
use mathlib.Core.Path.{ap₂}
use mathlib.Core.Option
use nap_cat_qq_rs.Prelude.{
  ℕ, ◌^◌, ◌<◌, String, ◌==◌, ◌≡◌, refl, ap, sym, ok_injective, ◌∙◌, ◌&&◌, Option, none, some, List,
  [], ◌∷◌, Result, ok, arith, is_some, bind-ok, ltb, if◌then◌else◌,
}
use nap_cat_qq_rs.Storage.{StorageError, StoredRecord, validate_namespace_and_key}
use nap_cat_qq_rs.Storage.Laws.{written}
use nap_cat_qq_rs.Storage.Contents.{
  Request, put, get, remove, clear, Answer, done, found, removed_one, Contents, refusal, update,
  guarded, contract, promised,
}
use nap_cat_qq_rs.Storage.Contents.Laws.{check, check_namespace}
use nap_cat_qq_rs.Storage.Sqlite
use nap_cat_qq_rs.Storage.Sqlite.{
  Row, Sql, as_i64, u64_from, first_write, record_to_entry, entry_of,
}
use nap_cat_qq_rs.Storage.Sqlite.Database.{IsSqlite, IsReliable, IsReadBack}
use nap_cat_qq_rs.Storage.Sqlite.Steps.{put-steps}
use nap_cat_qq_rs.Storage.Sqlite.Laws.{view-put, entry-put, first-view}
use nap_cat_qq_rs.Storage.Sqlite.Agreement.{created-entry, first-agrees}
use nap_cat_qq_rs.Storage.Sqlite.Calls.{
  Decodes, AreTimely, timely_rest, AreReadBack, read_back_rest, sqlite_call, sqlite_answers,
  put_refused, remove_refused, clear_refused, remove_done, clear_done, removed_entry,
}

module _ {Db Tx Value : Type 0} (sql : Sql Db Tx Value) (law : IsSqlite sql)
    (reliable : IsReliable sql) where
  abbrev Follows :
      Result StorageError (Answer Value) × Db
      → Result StorageError (Answer Value) × Contents Value
      → Type 0
  Follows r s = (r.0 ≡ s.0) × Decodes sql law r.1 s.1

  -- The time of the first write can be read.
  first_write-ok :
      (row : Option Row) (entry : Option (StoredRecord Value)) (now : ℕ)
      → entry_of sql row ≡ ok entry
      → (created : ℕ) × (first_write (Option.map (λ r. r.created_at) row) now ≡ ok created)
  unfolding entry_of first_write
  first_write-ok none entry now h = (now, refl)
  first_write-ok (some row) entry now h =
      let (made, e, same) = bind-ok (record_to_entry sql row) _ _ h in
      (made.created_at, rw (created-entry sql law row made e) refl)

  put_done :
      (a k : String) (value : Value) (now : ℕ) (db : Db) (contents : Contents Value)
      → IsReadBack sql value
      → validate_namespace_and_key a k ≡ ok tt
      → Decodes sql law db contents
      → (after : Db) × (Sqlite.put sql a k value now db ≡ (ok tt, after))
  unfolding Sqlite.put
  put_done a k value now db contents (text, encoded, back) valid holds =
      let (tx, began) = reliable.begins db in
      let (existing, selected) = reliable.selects_created a k tx in
      let (created, first) = first_write-ok (law.view db a k) (contents a k) now (holds a k) in
      let (wrote, upserted) =
        reliable.upserts
          (record {
            namespace = a;
            record_key = k;
            value = text;
            created_at = as_i64 created;
            updated_at = as_i64 now;
          })
          tx in
      let (after, committed) = reliable.commits wrote in
      let same : first_write existing now ≡ ok created =
        rw (law.selects_created a k tx existing selected, law.begins db tx a k began) first in
      (after, rw (Sqlite.put, valid, encoded, began, selected, same, upserted, committed) refl)

  put-Decodes :
      (a k : String) (value : Value) (now : ℕ) (db after : Db) (contents : Contents Value)
      → IsReadBack sql value
      → Sqlite.put sql a k value now db ≡ (ok tt, after)
      → now < 2 ^ 63
      → Decodes sql law db contents
      → Decodes sql law after
          (update a k (some (written (contents a k) a k value now now)) contents)
  put-Decodes a k value now db after contents (text, encoded, back) h small holds n l =
      let p = put-steps sql a k value now db after h in
      let first =
        first-agrees sql law (law.view db a k) (contents a k) a k value now p.created_at (holds a k)
          (first-view sql law a k value now db after p) in
      let payload : p.payload ≡ text = ok_injective p.payload text (sym p.encoded ∙ encoded) in
      rw (view-put sql law a k n l value now db after p, first)
        (entry-put sql law ((a == n) && (k == l)) a k n l value now db after p small
            (ap sql.from_json payload ∙ back)
          ∙ rw (holds n l) (ground arith))

  put-Follows :
      (a k : String) (value : Value) (now later : ℕ) (db : Db) (contents : Contents Value)
      (o : Option StorageError)
      → refusal a k ≡ o
      → IsReadBack sql value
      → later ≡ now
      → now < 2 ^ 63
      → Decodes sql law db contents
      → Follows (sqlite_call sql (put a k value now later) db) (
          guarded o contents done
            (update a k (some (written (contents a k) a k value now later)) contents))
  put-Follows a k value now later db contents none e back t small holds =
      let (after, h) = put_done a k value now db contents back (check a k none e) holds in
      rw (h, t) (refl, put-Decodes a k value now db after contents back h small holds)
  put-Follows a k value now later db contents (some error) e back t small holds =
      rw (put_refused sql a k value now db error (check a k (some error) e)) (refl, holds)

  get-Follows :
      (a k : String) (db : Db) (contents : Contents Value) (o : Option StorageError)
      → refusal a k ≡ o
      → Decodes sql law db contents
      → Follows (sqlite_call sql (get a k) db) (guarded o contents (found (contents a k)) contents)
  unfolding Sqlite.get
  get-Follows a k db contents none e holds =
      let (row, selected) = reliable.selects a k db in
      (
        rw (Sqlite.get, check a k none e, selected, law.selects a k db row selected, holds a k)
            refl,
        holds,
      )
  get-Follows a k db contents (some error) e holds =
      (rw (Sqlite.get, check a k (some error) e) refl, holds)

  removed_count :
      (row : Option Row) (entry : Option (StoredRecord Value)) (rows : ℕ)
      → entry_of sql row ≡ ok entry
      → rows ≡ (if is_some row then 1 else 0)
      → ltb 0 rows ≡ is_some entry
  unfolding entry_of
  removed_count none none rows h e = rw e refl
  removed_count none (some entry) rows h e = ground (arith, h)
  removed_count (some row) none rows h e =
      let (made, f, same) = bind-ok (record_to_entry sql row) _ _ h in ground (arith, same)
  removed_count (some row) (some entry) rows h e = rw e refl

  remove-Follows :
      (a k : String) (db : Db) (contents : Contents Value) (o : Option StorageError)
      → refusal a k ≡ o
      → Decodes sql law db contents
      → Follows
          (sqlite_call sql (remove a k) db)
          (guarded o contents (removed_one (is_some (contents a k))) (update a k none contents))
  remove-Follows a k db contents none e holds =
      let (rows, after, deleted) = reliable.deletes a k db in
      let (count, views) = law.deletes a k db after rows deleted in
      rw (remove_done sql a k db after rows (check a k none e) deleted) (
        ap (λ b. ok (removed_one b))
            (removed_count (law.view db a k) (contents a k) rows (holds a k) count),
        λ n l. rw (views n l) (removed_entry sql ((a == n) && (k == l)) _ _ (holds n l)),
      )
  remove-Follows a k db contents (some error) e holds =
      rw (remove_refused sql a k db error (check a k (some error) e)) (refl, holds)

  clear-Follows :
      (a : String) (db : Db) (contents : Contents Value) (o : Option StorageError)
      → refusal a "any" ≡ o
      → Decodes sql law db contents
      → Follows
          (sqlite_call sql (clear a) db)
          (guarded o contents done (λ n k. if n == a then none else contents n k))
  clear-Follows a db contents none e holds =
      let (rows, after, deleted) = reliable.clears a db in
      rw (clear_done sql a db after rows (check_namespace a none e) deleted) (
        refl,
        λ n l.
            rw (law.clears a db after rows deleted n l)
              (removed_entry sql (n == a) _ _ (holds n l)),
      )
  clear-Follows a db contents (some error) e holds =
      rw (clear_refused sql a db error (check_namespace a (some error) e)) (refl, holds)

  call-Follows :
      (request : Request Value) (requests : List (Request Value)) (db : Db)
      (contents : Contents Value)
      → AreTimely (request ∷ requests)
      → AreReadBack sql (request ∷ requests)
      → Decodes sql law db contents
      → Follows (sqlite_call sql request db) (contract request contents)
  call-Follows (put a k value now later) requests db contents (t, small, rest) (back, others)
        holds =
      put-Follows a k value now later db contents _ refl back t small holds
  call-Follows (get a k) requests db contents timely back holds =
      get-Follows a k db contents _ refl holds
  call-Follows (remove a k) requests db contents timely back holds =
      remove-Follows a k db contents _ refl holds
  call-Follows (clear a) requests db contents timely back holds =
      clear-Follows a db contents _ refl holds

  -- Through every history of `put`, `get`, `remove` and `clear_namespace`, whatever the characters of
  -- the names, `SqliteStore` answers as a partial map of pairs of a namespace and a key does that
  -- refuses blank namespaces and keys: one that begins with what the rows of the table decode to.
  -- For a database that does what its statements say and refuses none, written values that serde_json
  -- writes and reads back, and a clock below 2^63 s that a write reads once. The number that
  -- `clear_namespace` answers is not compared.
  pub sqlite_history_promised :
      (requests : List (Request Value)) (db : Db) (contents : Contents Value)
      → AreTimely requests
      → AreReadBack sql requests
      → Decodes sql law db contents
      → sqlite_answers sql requests db ≡ promised requests contents
  sqlite_history_promised [] db contents timely back holds = refl
  sqlite_history_promised (request ∷ requests) db contents timely back holds =
      let (same, kept) = call-Follows request requests db contents timely back holds in
      ap₂ ◌∷◌ same (
        sqlite_history_promised requests (sqlite_call sql request db).1
          (contract request contents).1 (timely_rest request requests timely)
          (read_back_rest sql request requests back) kept)
