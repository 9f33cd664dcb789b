-- ===== src/Storage/Paths/Rerooted.antt =====
-- What becomes of the URL of an absolute path.
use text.Mathlib.TextPositions.{starts_with_of_prefix}
use Prim.Native.String.append
use text.Mathlib.TextEquality.{starts_with_iff}
use nap_cat_qq_rs.Prelude.{
  String, ◌<>◌, ◌==◌, eq_iff, starts_with, ◌≡◌, refl, sym, ap, ◌∙◌, true, false, none, some, ok,
  is_empty, Bool-cases, inl, inr,
}
use nap_cat_qq_rs.Text.{is_blank, is_whitespace}
use nap_cat_qq_rs.Text.Blank.{is_blank-all_white, all_white}
use nap_cat_qq_rs.Text.Prefix.{strip_prefix, trim_start_matches-append, strip_prefix-append}
use nap_cat_qq_rs.OsPath.{PathBuf, of_str, is_absolute, is_separator, join}
use nap_cat_qq_rs.OsPath.Laws.{is_text-of_str}
use nap_cat_qq_rs.Storage.Paths.{
  Machine, normalized, absolute, make_parent, place, resolve_sqlite_path,
}

abbrev url_of : String → String
url_of path = "sqlite://" <> path

-- A path from the root.
abbrev from_root : String → String
from_root name = String.◌∷◌ "/" name

starts_with-url_of : (path : String) → starts_with (url_of path) "sqlite://" ≡ true
starts_with-url_of path = starts_with_of_prefix "sqlite://" (url_of path) (path, refl)

url_of-eq : (path t : String) → starts_with t "sqlite://" ≡ false → (url_of path == t) ≡ false
url_of-eq path t h = elim (Bool-cases (url_of path == t)) [
  | inl same ↦
      let e : true ≡ false =
        sym (starts_with-url_of path)
        ∙ ap (λ u. starts_with u "sqlite://") ((eq_iff (url_of path) t).0 same)
        ∙ h in
      cc
  | inr differ ↦ differ
]

is_blank-url_of : (path : String) → is_blank (url_of path) ≡ false
unfolding all_white is_whitespace
is_blank-url_of path =
    is_blank-all_white (url_of path) ∙ ap all_white (append.cons "s" "qlite://" path)

normalized-url_of : (name : String) → normalized (url_of (from_root name)) ≡ of_str name
unfolding normalized strip_prefix
normalized-url_of name =
    rw
      (
        url_of-eq (from_root name) "sqlite::memory:" refl,
        starts_with-url_of (from_root name),
        trim_start_matches-append "s" "qlite://" (from_root name) refl,
      )
      refl

from_root-starts_with : (name : String) → starts_with (from_root name) "sqlite://" ≡ false
unfolding strip_prefix
from_root-starts_with name = elim (Bool-cases (starts_with (from_root name) "sqlite://")) [
  | inl begins ↦
      let (rest, e) = (starts_with_iff (from_root name) "sqlite://").0 begins in
      let found : none ≡ some rest =
        ap (strip_prefix "sqlite://") (sym e) ∙ strip_prefix-append "sqlite://" rest in
      cc
  | inr differ ↦ differ
]

from_root-eq : (name t : String) → strip_prefix "/" t ≡ none → (from_root name == t) ≡ false
unfolding strip_prefix
from_root-eq name t h = elim (Bool-cases (from_root name == t)) [
  | inl same ↦
      let found : some name ≡ none =
        ap (strip_prefix "/") ((eq_iff (from_root name) t).0 same) ∙ h in
      cc
  | inr differ ↦ differ
]

is_blank-from_root : (name : String) → is_blank (from_root name) ≡ false
unfolding all_white is_whitespace
is_blank-from_root name = is_blank-all_white (from_root name)

normalized-from_root : (name : String) → normalized (from_root name) ≡ of_str (from_root name)
unfolding normalized strip_prefix
normalized-from_root name =
    rw (from_root-eq name "sqlite::memory:" refl, from_root-starts_with name) refl

module _ {Disk Db : Type 0} (machine : Machine Disk Db) (disk : Disk) where
  -- A text that names a file.
  resolve_file :
      (raw_path path : String)
      → is_blank raw_path ≡ false
      → (raw_path == ":memory:") ≡ false
      → (raw_path == "sqlite::memory:") ≡ false
      → normalized raw_path ≡ of_str path
      → is_empty (of_str path) ≡ false
      → (path == ":memory:") ≡ false
      → resolve_sqlite_path machine raw_path disk ≡ place machine (of_str path) disk
  unfolding resolve_sqlite_path
  resolve_file raw_path path visible other another e some_left file =
      rw (visible, other, another, e, some_left, is_text-of_str path ":memory:", file) refl

  place_absolute :
      (path : PathBuf)
      → is_absolute path ≡ true
      → place machine path disk ≡ make_parent machine path disk
  unfolding place absolute
  place_absolute path h = rw (place, absolute, h) refl

  place_relative :
      (path dir : PathBuf)
      → machine.current_dir ≡ ok dir
      → is_absolute path ≡ false
      → place machine path disk ≡ make_parent machine (join dir path) disk
  unfolding place absolute
  place_relative path dir h k = rw (place, absolute, k, h) refl

  -- The defect: an absolute path stays where it is, but its `sqlite://` URL is resolved without the
  -- slash, under the working directory; for a path that has one slash in front of its name, which is
  -- not empty and not `:memory:`.
  pub url_rerooted :
      (name : String) (dir : PathBuf)
      → machine.current_dir ≡ ok dir
      → is_empty (of_str name) ≡ false
      → is_absolute (of_str name) ≡ false
      → (name == ":memory:") ≡ false
      → (resolve_sqlite_path machine (from_root name) disk
          ≡ make_parent machine (of_str (from_root name)) disk)
        × (resolve_sqlite_path machine ("sqlite://" <> from_root name) disk
            ≡ make_parent machine (join dir (of_str name)) disk)
  unfolding of_str is_absolute is_separator strip_prefix
  url_rerooted name dir h visible relative file = (
    resolve_file (from_root name) (from_root name) (is_blank-from_root name)
          (from_root-eq name ":memory:" refl) (from_root-eq name "sqlite::memory:" refl)
          (normalized-from_root name) refl (from_root-eq name ":memory:" refl)
        ∙ place_absolute (of_str (from_root name)) refl,
    resolve_file (url_of (from_root name)) name (is_blank-url_of (from_root name))
          (url_of-eq (from_root name) ":memory:" refl)
          (url_of-eq (from_root name) "sqlite::memory:" refl) (normalized-url_of name) visible file
        ∙ place_relative (of_str name) dir h relative,
  )
