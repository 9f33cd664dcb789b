-- ===== src/Storage.antt =====
-- napcat-rs/crates/storage: `MemoryStore`, the `Storage` that keeps its records in a hash map under
-- the qualified key `{namespace}\0{key}`. `Value` is `serde_json::Value`, which the store never looks
-- into, and the readings of the system clock are arguments.
mod Namespace
mod Laws
mod Listing
mod Contents
mod Unordered
pub mod Sqlite
pub mod Paths
mod Tests
use Prim.Native.Char.{nul}
use nap_cat_qq_rs.Prelude.{
  ℕ, ◌-◌, String, ◌<>◌, ◌==◌, starts_with, Bool, true, false, not, Option, none, some, List, [],
  ◌∷◌, map, Result, ok, err, ◌>>=◌, ◌>>◌, length, retain, is_some, if◌then◌else◌,
}
use mathlib.Core.Option
use nap_cat_qq_rs.Text.{is_blank}
use nap_cat_qq_rs.Text.Split.{split_once}
use nap_cat_qq_rs.Text.Sort.{sort}
use nap_cat_qq_rs.HashMap
use nap_cat_qq_rs.HashMap.{HashMap}

pub data StorageError : Type 0 where
  validation io database serde internal : String → StorageError

pub record StoredRecord (Value : Type 0) : Type 0 where
  pub namespace : String
  pub key : String
  pub value : Value
  pub created_at : ℕ
  pub updated_at : ℕ

pub record MemoryStore (Value : Type 0) : Type 0 where
  pub values : HashMap (StoredRecord Value)

unfoldable pub validate_namespace : String → Result StorageError (Unit {0})
validate_namespace namespace =
    if is_blank namespace then err (validation "namespace cannot be empty") else ok tt

unfoldable pub validate_key : String → Result StorageError (Unit {0})
validate_key key = if is_blank key then err (validation "key cannot be empty") else ok tt

unfoldable pub validate_namespace_and_key : String → String → Result StorageError (Unit {0})
unfolding validate_namespace validate_key
validate_namespace_and_key namespace key = do validate_namespace namespace; validate_key key; ok tt

unfoldable pub qualified_key : String → String → String
qualified_key namespace key = namespace <> String.◌∷◌ nul key

-- The key that a qualified key holds, if it stands in the namespace.
pub key_in : String → Option (String × String) → Option String
key_in namespace none = none
key_in namespace (some (current, key)) = if current == namespace then some key else none

-- The test of `retain`: a key with no separator stays.
pub outside : String → Option (String × String) → Bool
outside namespace none = true
outside namespace (some (current, key)) = not (current == namespace)

pub filter_map : {A B : Type 0} → (A → Option B) → List A → List B
filter_map f [] = []
filter_map f (x ∷ xs) = let rest = filter_map f xs in elim (f x) [ none ↦ rest | some y ↦ y ∷ rest ]

module _ {Value : Type 0} where
  -- `later` is the clock as the branch without an earlier record reads it once more.
  unfoldable pub make_record :
      String → String → Value → Option (StoredRecord Value × ℕ) → ℕ → StoredRecord Value
  make_record namespace key value (some (previous, now)) later = record {
    namespace = namespace;
    key = key;
    value = value;
    created_at = previous.created_at;
    updated_at = now;
  }
  make_record namespace key value none later = record {
    namespace = namespace;
    key = key;
    value = value;
    created_at = later;
    updated_at = later;
  }

  pub stored : MemoryStore Value → String → String → Value → ℕ → ℕ → MemoryStore Value
  unfolding make_record
  stored store namespace key value now later =
      let q = qualified_key namespace key in
      let current = Option.map (λ previous. (previous, now)) (HashMap.get q store.values) in
      record {
        values =
            HashMap.insert q (make_record namespace key value current later)
              (HashMap.remove q store.values);
      }

  unfoldable pub put :
      MemoryStore Value
      → String
      → String
      → Value
      → ℕ
      → ℕ
      → Result StorageError (Unit {0}) × MemoryStore Value
  unfolding stored
  put store namespace key value now later = elim (validate_namespace_and_key namespace key) [
    | err e ↦ (err e, store)
    | ok _ ↦ (ok tt, stored store namespace key value now later)
  ]

  unfoldable pub get :
      MemoryStore Value → String → String → Result StorageError (Option (StoredRecord Value))
  get store namespace key = do
    validate_namespace_and_key namespace key
    ok (HashMap.get (qualified_key namespace key) store.values)

  unfoldable pub remove :
      MemoryStore Value → String → String → Result StorageError Bool × MemoryStore Value
  remove store namespace key = elim (validate_namespace_and_key namespace key) [
    | err e ↦ (err e, store)
    | ok _ ↦
        let q = qualified_key namespace key in
        (
          ok (is_some (HashMap.get q store.values)),
          record { values = HashMap.remove q store.values },
        )
  ]

  unfoldable pub keys : MemoryStore Value → String → Result StorageError (List String)
  unfolding filter_map key_in
  keys store namespace = do
    validate_namespace namespace
    ok (
        sort (
          filter_map (λ qualified. key_in namespace (split_once nul qualified))
            (HashMap.keys store.values)))

  -- `saturating_sub` is the subtraction of ℕ.
  unfoldable pub clear_namespace :
      MemoryStore Value → String → Result StorageError ℕ × MemoryStore Value
  unfolding outside
  clear_namespace store namespace = elim (validate_namespace namespace) [
    | err e ↦ (err e, store)
    | ok _ ↦
        let kept = retain (λ e. outside namespace (split_once nul e.0)) store.values in
        (ok (length store.values - length kept), record { values = kept })
  ]

  unfoldable pub count_namespace : MemoryStore Value → String → Result StorageError ℕ
  count_namespace store namespace = do
    validate_namespace namespace
    ok (
        length (
          retain (λ qualified. starts_with qualified (namespace <> String.◌∷◌ nul ""))
            (HashMap.keys store.values)))
