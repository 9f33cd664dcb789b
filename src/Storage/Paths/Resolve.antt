-- ===== src/Storage/Paths/Resolve.antt =====
-- What a raw path of napcat-rs/crates/storage is resolved to.
use nap_cat_qq_rs.Prelude.{
  String, ◌==◌, ◌≡◌, refl, true, ◌||◌, none, some, arith, Result, ok, err, ◌>>=◌, map_err,
  ok_injective, is_empty, Bool-cases, Result-cases, Option-cases, if-elim, inl, inr,
}
use nap_cat_qq_rs.Text.{is_blank}
use nap_cat_qq_rs.OsPath.{PathBuf, of_str, is_absolute, is_text, join, parent}
use nap_cat_qq_rs.OsPath.Laws.{join-is_absolute, is_text_inverse}
use nap_cat_qq_rs.Storage.{StorageError, io}
use nap_cat_qq_rs.Storage.Paths.{
  Machine, normalized, absolute, make_parent, place, resolve_sqlite_path,
}

module _ {Disk Db : Type 0} (machine : Machine Disk Db) where
  -- The directory that a path stands in is there.
  pub data IsReady (path : PathBuf) (disk : Disk) : Disk → Type 0 where
    no_parent : parent path ≡ none → IsReady path disk disk
    made_parent :
        (dir : PathBuf) {after : Disk}
        → parent path ≡ some dir
        → machine.create_dir_all dir disk ≡ (ok tt, after)
        → IsReady path disk after

  -- What a path is resolved to.
  pub data Resolves (disk : Disk) : Result StorageError PathBuf × Disk → Type 0 where
    refused : (e : StorageError) → Resolves disk (err e, disk)
    unmade :
        (dir : PathBuf) (e : String) {after : Disk}
        → machine.create_dir_all dir disk ≡ (err e, after)
        → Resolves disk (err (io e), after)
    in_memory : Resolves disk (ok (of_str ":memory:"), disk)
    on_disk :
        (path : PathBuf) {after : Disk}
        → is_absolute path ≡ true
        → IsReady path disk after
        → Resolves disk (ok path, after)

  made :
      (path dir : PathBuf) (disk : Disk) (r : Result String (Unit {0}) × Disk)
      → is_absolute path ≡ true
      → parent path ≡ some dir
      → machine.create_dir_all dir disk ≡ r
      → Resolves disk (map_err io r.0 >>= (λ _. ok path), r.1)
  made path dir disk (ok _, after) h p e = on_disk path h (made_parent dir p e)
  made path dir disk (err e, after) h p f = unmade dir e f

  make_parent-Resolves :
      (path : PathBuf) (disk : Disk)
      → is_absolute path ≡ true
      → Resolves disk (make_parent machine path disk)
  unfolding make_parent
  make_parent-Resolves path disk h = elim (Option-cases (parent path)) [
    | inl none_above ↦ rw (make_parent, none_above) (on_disk path h (no_parent none_above))
    | inr (dir, p) ↦
        rw (make_parent, p) (made path dir disk (machine.create_dir_all dir disk) h p refl)
  ]

  joined :
      (path found : PathBuf) (r : Result String PathBuf)
      → ((dir : PathBuf) → r ≡ ok dir → is_absolute dir ≡ true)
      → map_err io r >>= (λ dir. ok (join dir path)) ≡ ok found
      → is_absolute found ≡ true
  joined path found (ok dir) rooted h =
      rw (← ok_injective _ _ h) (join-is_absolute dir path (rooted dir refl))
  joined path found (err e) rooted h = cc

  module _ (rooted : (dir : PathBuf) → machine.current_dir ≡ ok dir → is_absolute dir ≡ true) where
    absolute-is_absolute :
        (path found : PathBuf) → absolute machine path ≡ ok found → is_absolute found ≡ true
    unfolding absolute
    absolute-is_absolute path found h = elim (Bool-cases (is_absolute path)) [
      | inl free ↦ ground (arith, free)
      | inr bound ↦ joined path found machine.current_dir rooted (ground (arith, h, bound))
    ]

    place-Resolves : (path : PathBuf) (disk : Disk) → Resolves disk (place machine path disk)
    unfolding place
    place-Resolves path disk = elim (Result-cases (absolute machine path)) [
      | inl (found, h) ↦
          rw (place, h) (make_parent-Resolves found disk (absolute-is_absolute path found h))
      | inr (e, h) ↦ rw (place, h) (refused e)
    ]

    -- With an absolute working directory, `resolve_sqlite_path` refuses and leaves the file system
    -- alone, fails to make the directory, answers `:memory:` and leaves the file system alone, or
    -- answers an absolute path whose directory it has made.
    pub resolve_sqlite_path-Resolves :
        (raw_path : String) (disk : Disk)
        → Resolves disk (resolve_sqlite_path machine raw_path disk)
    unfolding resolve_sqlite_path
    resolve_sqlite_path-Resolves raw_path disk =
        if-elim (Resolves disk) (is_blank raw_path) (λ blank. refused _)
          λ visible.
            if-elim (Resolves disk) (raw_path == ":memory:" || raw_path == "sqlite::memory:")
              (λ named. in_memory)
              λ other.
                if-elim (Resolves disk) (is_empty (normalized raw_path)) (λ none_left. refused _)
                  λ left.
                    if-elim (Resolves disk) (is_text (normalized raw_path) ":memory:")
                      (λ found. rw (is_text_inverse _ _ found) in_memory)
                      λ file. place-Resolves (normalized raw_path) disk
