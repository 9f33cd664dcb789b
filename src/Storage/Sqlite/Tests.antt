-- ===== src/Storage/Sqlite/Tests.antt =====
-- Calls of `SqliteStore` on a table that is a list of rows.
use nap_cat_qq_rs.Prelude.{String, ◌≡◌, refl, false, none, List, [], ◌∷◌, arith}
use nap_cat_qq_rs.Prelude.Int.{pos}
use nap_cat_qq_rs.Text.{is_blank}
use nap_cat_qq_rs.Text.Split.{contains}
use nap_cat_qq_rs.Storage
use nap_cat_qq_rs.Storage.{validate_namespace_and_key, MemoryStore}
use nap_cat_qq_rs.Storage.Laws.{IsName}
use nap_cat_qq_rs.Storage.Sqlite.{Row, entry_of}
use nap_cat_qq_rs.Storage.Contents.{
  Request, put as put_request, answers, promised, get as get_request, remove as remove_request,
  clear as clear_request,
}
use nap_cat_qq_rs.Storage.Sqlite.Table.{table, table-IsSqlite, table-IsReliable}
use nap_cat_qq_rs.Storage.Sqlite.Calls.{sqlite_answers}
use nap_cat_qq_rs.Storage.Sqlite.History.{sqlite_history_promised}
use nap_cat_qq_rs.Storage.Sqlite.Interchange.{stores_interchangeable}

abbrev old : Row
old = record {
  namespace = "qq";
  record_key = "a";
  value = "1";
  created_at = pos 10;
  updated_at = pos 11;
}

abbrev in_memory : MemoryStore String
in_memory = record {
  values =
      (
        Storage.qualified_key "qq" "a",
        record { namespace = "qq"; key = "a"; value = "1"; created_at = 10; updated_at = 11 },
      )
      ∷ [];
}

qq-IsName : (key : String) → is_blank key ≡ false → IsName "qq" key
unfolding validate_namespace_and_key contains is_blank
qq-IsName key h = record { accepted = rw h refl; plain = refl }

abbrev requests : List (Request String)
requests =
    put_request "qq" "a" "1" 10 10
    ∷ put_request "" "a" "2" 12 12
    ∷ clear_request "wx"
    ∷ remove_request "qq" "a"
    ∷ get_request "qq" "a"
    ∷ []

sqlite_history_promised_example : sqlite_answers table requests [] ≡ promised requests (λ n k. none)
unfolding table-IsSqlite entry_of
sqlite_history_promised_example =
    sqlite_history_promised table table-IsSqlite table-IsReliable requests [] (λ n k. none)
      (refl, omega arith, (refl, omega arith, tt)) (("1", refl, refl), (("2", refl, refl), tt))
      (λ n k. refl)

stores_interchangeable_example :
    answers requests (record { values = [] }) ≡ sqlite_answers table requests []
unfolding table-IsSqlite entry_of contains Storage.HashMap.get
stores_interchangeable_example =
    stores_interchangeable table table-IsSqlite table-IsReliable requests (record { values = [] })
      [] (λ n k. none) (refl, (refl, (refl, (refl, (refl, tt)))))
      (refl, omega arith, (refl, omega arith, tt)) (("1", refl, refl), (("2", refl, refl), tt))
      (λ n k p. refl) (λ n k. refl)
