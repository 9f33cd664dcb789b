-- ===== src/Storage/Contents.antt =====
-- What a `Storage` of napcat-rs/crates/storage promises: to answer as a partial map of pairs of a
-- namespace and a key does.
pub mod Laws
mod Tests
use Prim.Native.Char.{nul}
use mathlib.Core.Path.{ap₂}
use nap_cat_qq_rs.Prelude.{
  ℕ, String, ◌==◌, ◌≡◌, refl, sym, ap, ◌∙◌, Bool, false, ◌&&◌, Option, none, some, List, [], ◌∷◌,
  Result, ok, err, arith, is_some, Option-cases, inl, inr, if◌then◌else◌,
}
use nap_cat_qq_rs.Text.{is_blank}
use nap_cat_qq_rs.Text.Split.{contains}
use nap_cat_qq_rs.HashMap
use nap_cat_qq_rs.Storage
use nap_cat_qq_rs.Storage.{
  StorageError, validation, StoredRecord, MemoryStore, validate_namespace,
  validate_namespace_and_key, stored, qualified_key,
}
use nap_cat_qq_rs.Storage.Laws.{
  IsName, entry, written, put_lem, remove_lem, removed, entry-stored, entry-removed, get-entry,
}
use nap_cat_qq_rs.Storage.Listing.{others, clear_lem, get-others, cleared, listed}

pub data Request (Value : Type 0) : Type 0 where
  put : (namespace key : String) → Value → (now later : ℕ) → Request Value
  get remove : (namespace key : String) → Request Value
  clear : (namespace : String) → Request Value

-- What a call answers; how many entries `clear_namespace` has removed is not told.
pub data Answer (Value : Type 0) : Type 0 where
  done : Answer Value
  found : Option (StoredRecord Value) → Answer Value
  removed_one : Bool → Answer Value

-- The namespace of a request has no NUL.
abbrev pub IsPlain : {Value : Type 0} → Request Value → Type 0
IsPlain (put namespace key value now later) = contains nul namespace ≡ false
IsPlain (get namespace key) = contains nul namespace ≡ false
IsPlain (remove namespace key) = contains nul namespace ≡ false
IsPlain (clear namespace) = contains nul namespace ≡ false

abbrev pub ArePlain : {Value : Type 0} → List (Request Value) → Type 0
ArePlain [] = Unit {0}
ArePlain (request ∷ requests) = IsPlain request × ArePlain requests

-- The contract.
abbrev pub Contents : Type 0 → Type 0
Contents Value = String → String → Option (StoredRecord Value)

abbrev pub refusal : (namespace key : String) → Option StorageError
refusal namespace key =
    if is_blank namespace
    then some (validation "namespace cannot be empty")
    else if is_blank key
    then some (validation "key cannot be empty")
    else none

module _ {Value : Type 0} where
  abbrev pub update :
      (namespace key : String) → Option (StoredRecord Value) → Contents Value → Contents Value
  update namespace key o contents n k = if (namespace == n) && (key == k) then o else contents n k

  abbrev pub guarded :
      Option StorageError
      → Contents Value
      → Answer Value
      → Contents Value
      → Result StorageError (Answer Value) × Contents Value
  guarded (some e) before answer after = (err e, before)
  guarded none before answer after = (ok answer, after)

  abbrev pub contract :
      Request Value → Contents Value → Result StorageError (Answer Value) × Contents Value
  contract (put namespace key value now later) contents =
      let o = some (written (contents namespace key) namespace key value now later) in
      guarded (refusal namespace key) contents done (update namespace key o contents)
  contract (get namespace key) contents =
      guarded (refusal namespace key) contents (found (contents namespace key)) contents
  contract (remove namespace key) contents =
      guarded (refusal namespace key) contents (removed_one (is_some (contents namespace key)))
        (update namespace key none contents)
  contract (clear namespace) contents =
      guarded (refusal namespace "any") contents done
        (λ n k. if n == namespace then none else contents n k)

  -- The answers of the contract to a history.
  abbrev pub promised :
      List (Request Value) → Contents Value → List (Result StorageError (Answer Value))
  promised [] contents = []
  promised (request ∷ requests) contents =
      (contract request contents).0 ∷ promised requests (contract request contents).1

  abbrev pub answer_with :
      {A : Type 0} → (A → Answer Value) → Result StorageError A → Result StorageError (Answer Value)
  answer_with f (ok a) = ok (f a)
  answer_with f (err e) = err e

  -- A call of `MemoryStore`.
  abbrev pub call :
      Request Value → MemoryStore Value → Result StorageError (Answer Value) × MemoryStore Value
  call (put namespace key value now later) store =
      let (r, after) = Storage.put store namespace key value now later in
      (answer_with (λ _. done) r, after)
  call (get namespace key) store = (answer_with found (Storage.get store namespace key), store)
  call (remove namespace key) store =
      let (r, after) = Storage.remove store namespace key in (answer_with removed_one r, after)
  call (clear namespace) store =
      let (r, after) = Storage.clear_namespace store namespace in (answer_with (λ _. done) r, after)

  abbrev pub answers :
      List (Request Value) → MemoryStore Value → List (Result StorageError (Answer Value))
  answers [] store = []
  answers (request ∷ requests) store =
      (call request store).0 ∷ answers requests (call request store).1

  -- The store holds the contents, in the namespaces without NUL.
  abbrev pub Holds : MemoryStore Value → Contents Value → Type 0
  Holds store contents = (n k : String) → contains nul n ≡ false → entry store n k ≡ contents n k

  abbrev pub Keeps :
      Result StorageError (Answer Value) × MemoryStore Value
      → Result StorageError (Answer Value) × Contents Value
      → Type 0
  Keeps r s = (r.0 ≡ s.0) × Holds r.1 s.1
