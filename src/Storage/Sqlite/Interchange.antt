-- ===== src/Storage/Sqlite/Interchange.antt =====
-- `MemoryStore` and `SqliteStore` in one place of napcat-rs/crates/storage: `dyn Storage`.
use nap_cat_qq_rs.Prelude.{◌≡◌, sym, ◌∙◌, List}
use nap_cat_qq_rs.Storage.{MemoryStore}
use nap_cat_qq_rs.Storage.Contents.{Request, ArePlain, Contents, Holds, answers}
use nap_cat_qq_rs.Storage.Contents.Laws.{history_promised}
use nap_cat_qq_rs.Storage.Sqlite.{Sql}
use nap_cat_qq_rs.Storage.Sqlite.Database.{IsSqlite, IsReliable}
use nap_cat_qq_rs.Storage.Sqlite.Calls.{Decodes, AreTimely, AreReadBack, sqlite_answers}
use nap_cat_qq_rs.Storage.Sqlite.History.{sqlite_history_promised}

-- The two stores answer alike to every history of `put`, `get`, `remove` and `clear_namespace`, up to
-- the number that `clear_namespace` answers, if they begin with the same contents: for namespaces in
-- which no NUL stands, a clock below 2^63 s that a write reads once, written values that serde_json
-- writes and reads back, and a database that does what its statements say and refuses none.
pub stores_interchangeable :
    {Db Tx Value : Type 0} (sql : Sql Db Tx Value) (law : IsSqlite sql) (reliable : IsReliable sql)
    (requests : List (Request Value)) (store : MemoryStore Value) (db : Db)
    (contents : Contents Value)
    → ArePlain requests
    → AreTimely requests
    → AreReadBack sql requests
    → Holds store contents
    → Decodes sql law db contents
    → answers requests store ≡ sqlite_answers sql requests db
stores_interchangeable sql law reliable requests store db contents plain timely back holds decodes =
    history_promised requests store contents plain holds
    ∙ sym (sqlite_history_promised sql law reliable requests db contents timely back decodes)
