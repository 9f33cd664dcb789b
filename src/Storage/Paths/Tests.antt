-- ===== src/Storage/Paths/Tests.antt =====
-- Opening databases on a machine whose disk is the list of the directories that were made.
use nap_cat_qq_rs.Prelude.{String, ◌≡◌, refl, sym, ap, true, List, [], ◌∷◌, ok, ok_injective}
use nap_cat_qq_rs.Text.{is_blank}
use nap_cat_qq_rs.Text.Prefix.{trim_start_matches, strip_prefix}
use nap_cat_qq_rs.OsPath.{
  PathBuf, of_str, to_str, is_absolute, is_separator, is_text, join, parent, segments,
}
use nap_cat_qq_rs.Storage.Paths.{
  Machine, SqliteStore, resolve_sqlite_path, normalized, place, absolute, make_parent, new,
  storage_url_from_path,
}
use nap_cat_qq_rs.Storage.Paths.Laws.{IsOpened, new-IsOpened}
use nap_cat_qq_rs.Storage.Paths.Rerooted.{url_rerooted}

-- A pool is its URL.
abbrev machine : Machine (List PathBuf) String
machine = record {
  current_dir = ok (of_str "/srv");
  create_dir_all = λ dir disk. (ok tt, dir ∷ disk);
  open_pool = λ url disk. (ok url, disk);
}

abbrev store : SqliteStore String
store = record { pool = "sqlite:/srv/./napcat.db?mode=rwc"; db_path = of_str "/srv/./napcat.db" }

default_url : new machine "sqlite://./napcat.db" [] ≡ (ok store, of_str "/srv" ∷ [])
unfolding new resolve_sqlite_path normalized place absolute make_parent storage_url_from_path of_str
    to_str is_absolute is_separator is_text join parent segments trim_start_matches strip_prefix
    is_blank
default_url = refl

rooted : (dir : PathBuf) → machine.current_dir ≡ ok dir → is_absolute dir ≡ true
unfolding of_str is_absolute is_separator
rooted dir h = ap is_absolute (sym (ok_injective _ dir h))

new-IsOpened_example : IsOpened machine [] store (of_str "/srv" ∷ [])
new-IsOpened_example =
    new-IsOpened machine "sqlite://./napcat.db" [] (of_str "/srv" ∷ []) store rooted default_url

url_rerooted_example :
    (resolve_sqlite_path machine "/var/napcat.db" []
      ≡ make_parent machine (of_str "/var/napcat.db") [])
    × (resolve_sqlite_path machine "sqlite:///var/napcat.db" []
        ≡ make_parent machine (of_str "/srv/var/napcat.db") [])
unfolding of_str is_absolute is_separator join
url_rerooted_example = url_rerooted machine [] "var/napcat.db" (of_str "/srv") refl refl refl refl
