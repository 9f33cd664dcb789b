-- ===== src/Storage/Laws.antt =====
-- `put`, `get` and `remove` of `MemoryStore` as a map from pairs of a namespace and a key.
use Prim.Native.Char.{nul}
use Prim.Native.String.append
use text.Mathlib.TextLemmas.{append_assoc}
use nap_cat_qq_rs.Prelude.{
  ℕ, String, ◌<>◌, ◌==◌, eq_refl, ◌≡◌, refl, ap, ◌∙◌, true, false, ◌&&◌, ◌||◌, Option, none, some,
  arith, ok, err, is_some, if◌then◌else◌,
}
use mathlib.Core.Option
use nap_cat_qq_rs.Text.{is_blank}
use nap_cat_qq_rs.Text.Split.{contains}
use nap_cat_qq_rs.HashMap
use nap_cat_qq_rs.HashMap.{get-insert, get-remove}
use nap_cat_qq_rs.Storage.{
  StorageError, validation, StoredRecord, MemoryStore, validate_namespace_and_key, qualified_key,
  make_record, stored, put, get, remove,
}
use nap_cat_qq_rs.Storage.Namespace.{qualified_key-eq}

-- A namespace in which no NUL stands, with a key: neither is blank.
pub record IsName (namespace key : String) : Type 0 where
  pub accepted : validate_namespace_and_key namespace key ≡ ok tt
  pub plain : contains nul namespace ≡ false

module _ {Value : Type 0} where
  -- The record that a write leaves: the first write's time is kept.
  abbrev pub written :
      Option (StoredRecord Value) → String → String → Value → ℕ → ℕ → StoredRecord Value
  written none namespace key value now later = record {
    namespace = namespace;
    key = key;
    value = value;
    created_at = later;
    updated_at = later;
  }
  written (some old) namespace key value now later = record {
    namespace = namespace;
    key = key;
    value = value;
    created_at = old.created_at;
    updated_at = now;
  }

  -- What a lookup answers, for a valid name.
  abbrev pub entry : MemoryStore Value → String → String → Option (StoredRecord Value)
  entry store namespace key = HashMap.get (qualified_key namespace key) store.values

  pub get-entry :
      (store : MemoryStore Value) (namespace key : String)
      → IsName namespace key
      → get store namespace key ≡ ok (entry store namespace key)
  unfolding get
  get-entry store namespace key name = rw name.accepted

  make_record-written :
      (old : Option (StoredRecord Value)) (namespace key : String) (value : Value) (now later : ℕ)
      → make_record namespace key value (Option.map (λ previous. (previous, now)) old) later
        ≡ written old namespace key value now later
  unfolding make_record
  make_record-written none namespace key value now later = refl
  make_record-written (some old) namespace key value now later = refl

  pub put_lem :
      (store : MemoryStore Value) (namespace key : String) (value : Value) (now later : ℕ)
      → IsName namespace key
      → put store namespace key value now later
        ≡ (ok tt, stored store namespace key value now later)
  unfolding put
  put_lem store namespace key value now later name = rw (name.accepted, put)

  pub entry-stored :
      (store : MemoryStore Value) (a k b l : String) (value : Value) (now later : ℕ)
      → contains nul a ≡ false
      → contains nul b ≡ false
      → entry (stored store a k value now later) b l ≡ (
          if (a == b) && (k == l)
          then some (written (entry store a k) a k value now later)
          else entry store b l)
  unfolding stored
  entry-stored store a k b l value now later ha hb =
      simp
        (
          get-insert,
          get-remove,
          qualified_key-eq a k b l ha hb,
          make_record-written (entry store a k) a k value now later,
        )
        (ground arith)

  abbrev pub removed : MemoryStore Value → String → String → MemoryStore Value
  removed store namespace key = record {
    values = HashMap.remove (qualified_key namespace key) store.values;
  }

  pub remove_lem :
      (store : MemoryStore Value) (namespace key : String)
      → IsName namespace key
      → remove store namespace key
        ≡ (ok (is_some (entry store namespace key)), removed store namespace key)
  unfolding remove
  remove_lem store namespace key name = rw (name.accepted, remove)

  pub entry-removed :
      (store : MemoryStore Value) (a k b l : String)
      → contains nul a ≡ false
      → contains nul b ≡ false
      → entry (removed store a k) b l ≡ (if (a == b) && (k == l) then none else entry store b l)
  entry-removed store a k b l ha hb = simp (get-remove, qualified_key-eq a k b l ha hb)

  -- For such names: `remove` reports whether `get` found a record, after it `get` of that name finds
  -- none, and `get` of any other name answers what it did before.
  pub get-remove_lem :
      (store : MemoryStore Value) (a k b l : String)
      → IsName a k
      → IsName b l
      → ((remove store a k).0 ≡ ok (is_some (entry store a k)))
        × (get (remove store a k).1 b l ≡ (if (a == b) && (k == l) then ok none else get store b l))
  get-remove_lem store a k b l name other = rw (remove_lem store a k name) (
    refl,
    get-entry (removed store a k) b l other
        ∙ ap ok (entry-removed store a k b l name.plain other.plain)
        ∙ rw (get-entry store b l other) (ground arith),
  )

  -- If the namespace or the key is blank, `put`, `get` and `remove` give the validation error, and
  -- the two that write leave the store as it was.
  pub blank_refused :
      (store : MemoryStore Value) (a k : String) (value : Value) (now later : ℕ)
      → (is_blank a || is_blank k) ≡ true
      → (e : StorageError) × (put store a k value now later ≡ (err e, store))
        × (remove store a k ≡ (err e, store))
        × (get store a k ≡ err e)
        × (e
            ≡ validation
                (if is_blank a then "namespace cannot be empty" else "key cannot be empty"))
  unfolding put get remove validate_namespace_and_key
  blank_refused store a k value now later h = (
    validation (if is_blank a then "namespace cannot be empty" else "key cannot be empty"),
    ground arith,
    ground arith,
    ground arith,
    refl,
  )

qualified_key_assoc :
    (a b k : String) → qualified_key (qualified_key a b) k ≡ qualified_key a (qualified_key b k)
unfolding qualified_key
qualified_key_assoc a b k =
    append_assoc a (String.◌∷◌ nul b) (String.◌∷◌ nul k)
    ∙ ap (◌<>◌ a) (append.cons nul b (String.◌∷◌ nul k))

module _ {Value : Type 0} where
  entry-stored_self :
      (store : MemoryStore Value) (a k : String) (value : Value) (now later : ℕ)
      → entry (stored store a k value now later) a k
        ≡ some (written (entry store a k) a k value now later)
  unfolding stored
  entry-stored_self store a k value now later =
      simp (get-insert, eq_refl, make_record-written (entry store a k) a k value now later)

-- The collision: what is written under the namespace `a\0b` and the key `k` is read under the
-- namespace `a` and the key `b\0k`, whenever both names are accepted.
pub collision :
    {Value : Type 0} (store : MemoryStore Value) (a b k : String) (value : Value) (now later : ℕ)
    → validate_namespace_and_key (qualified_key a b) k ≡ ok tt
    → validate_namespace_and_key a (qualified_key b k) ≡ ok tt
    → get (put store (qualified_key a b) k value now later).1 a (qualified_key b k)
      ≡ ok
          (some (written (entry store (qualified_key a b) k) (qualified_key a b) k value now later))
unfolding get put
collision store a b k value now later h g =
    rw (h, put, g, ← qualified_key_assoc a b k)
      (ap ok (entry-stored_self store (qualified_key a b) k value now later))
