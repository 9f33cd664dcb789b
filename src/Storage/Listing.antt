-- ===== src/Storage/Listing.antt =====
-- `keys`, `count_namespace` and `clear_namespace` of `MemoryStore` agree.
use Prim.Native.Char.{nul}
use nap_cat_qq_rs.Prelude.{
  ◌+◌, ◌-◌, String, ◌<>◌, ◌==◌, starts_with, ◌≡◌, refl, sym, ap, ◌∙◌, Bool, false, Option, none,
  List, [], ◌∷◌, arith, ok, length, retain, if◌then◌else◌,
}
use nap_cat_qq_rs.Text.Split.{contains, split_once}
use nap_cat_qq_rs.Text.Sort.{sort, IsSorted, sort-IsSorted, length-sort}
use nap_cat_qq_rs.HashMap
use nap_cat_qq_rs.HashMap.{HashMap, get-retain}
use nap_cat_qq_rs.Storage.{
  StoredRecord, MemoryStore, validate_namespace, qualified_key, key_in, outside, filter_map, keys,
  clear_namespace, count_namespace, get,
}
use nap_cat_qq_rs.Storage.Laws.{IsName, get-entry}
use nap_cat_qq_rs.Storage.Namespace.{starts_with-key_in, outside-key_in, split_once-qualified_key}

-- The entries of a namespace, counted.
abbrev reads : String → String → Option String
reads namespace qualified = key_in namespace (split_once nul qualified)

abbrev begins : String → String → Bool
begins namespace qualified = starts_with qualified (namespace <> String.◌∷◌ nul "")

module _ (namespace : String) (plain : contains nul namespace ≡ false) where
  length-begins :
      (qs : List String)
      → length (retain (begins namespace) qs) ≡ length (filter_map (reads namespace) qs)
  unfolding retain filter_map
  length-begins [] = refl
  length-begins (q ∷ qs) =
      rw (starts_with-key_in namespace q plain) (ground (arith, length-begins qs))

  module _ {Value : Type 0} where
    abbrev pub others : HashMap (StoredRecord Value) → HashMap (StoredRecord Value)
    others m = retain (λ e. outside namespace (split_once nul e.0)) m

    length-others :
        (m : HashMap (StoredRecord Value))
        → length (others m) + length (filter_map (reads namespace) (HashMap.keys m)) ≡ length m
    unfolding retain filter_map
    length-others [] = refl
    length-others ((q, r) ∷ m) =
        rw (outside-key_in namespace (split_once nul q)) (ground (arith, length-others m))

    others_silent :
        (m : HashMap (StoredRecord Value))
        → filter_map (reads namespace) (HashMap.keys (others m)) ≡ []
    unfolding retain filter_map
    others_silent [] = refl
    others_silent ((q, r) ∷ m) =
        rw (outside-key_in namespace (split_once nul q)) (ground (arith, others_silent m))

    abbrev pub listed : MemoryStore Value → List String
    listed store = filter_map (reads namespace) (HashMap.keys store.values)

    abbrev pub cleared : MemoryStore Value → MemoryStore Value
    cleared store = record { values = others store.values }

    module _ (store : MemoryStore Value) (valid : validate_namespace namespace ≡ ok tt) where
      keys_lem : keys store namespace ≡ ok (sort (listed store))
      unfolding keys
      keys_lem = rw valid

      count_lem : count_namespace store namespace ≡ ok (length (listed store))
      unfolding count_namespace
      count_lem = rw valid (ap ok (length-begins (HashMap.keys store.values)))

      pub clear_lem : clear_namespace store namespace ≡ (ok (length (listed store)), cleared store)
      unfolding clear_namespace
      clear_lem =
          rw (valid, clear_namespace)
            (let total : length store.values - length (others store.values)
                  ≡ length (listed store) =
                omega (arith, length-others store.values) in
              rw total)

    -- For an accepted namespace in which no NUL stands: `keys` lists, in order, as many keys as
    -- `count_namespace` counts and as `clear_namespace` reports to have removed, and after
    -- `clear_namespace` there is none.
    pub listing_agrees :
        (store : MemoryStore Value)
        → validate_namespace namespace ≡ ok tt
        → (ks : List String) × (keys store namespace ≡ ok ks)
          × IsSorted ks
          × (count_namespace store namespace ≡ ok (length ks))
          × ((clear_namespace store namespace).0 ≡ ok (length ks))
          × (keys (clear_namespace store namespace).1 namespace ≡ ok [])
          × (count_namespace (clear_namespace store namespace).1 namespace ≡ ok 0)
    unfolding sort
    listing_agrees store valid =
        let same = length-sort (listed store) in
        let silent = others_silent store.values in
        rw
          (
            clear_lem store valid,
            count_lem store valid,
            count_lem (cleared store) valid,
            keys_lem (cleared store) valid,
            silent,
          )
          (
            sort (listed store),
            keys_lem store valid,
            sort-IsSorted (listed store),
            ap ok (sym same),
            ap ok (sym same),
            refl,
            refl,
          )

    pub get-others :
        (m : HashMap (StoredRecord Value)) (b l : String)
        → contains nul b ≡ false
        → HashMap.get (qualified_key b l) (others m)
          ≡ (if b == namespace then none else HashMap.get (qualified_key b l) m)
    unfolding outside
    get-others m b l other =
        get-retain (λ q. outside namespace (split_once nul q)) (qualified_key b l) m
        ∙ rw (split_once-qualified_key b l other) (ground arith)

    -- For an accepted namespace in which no NUL stands, `get` finds nothing in it after
    -- `clear_namespace`, and answers in any other such namespace what it did before.
    pub get-clear_namespace :
        (store : MemoryStore Value) (b l : String)
        → validate_namespace namespace ≡ ok tt
        → IsName b l
        → get (clear_namespace store namespace).1 b l
          ≡ (if b == namespace then ok none else get store b l)
    get-clear_namespace store b l valid other = rw (clear_lem store valid) (
        get-entry (cleared store) b l other
        ∙ ap ok (get-others store.values b l other.plain)
        ∙ rw (get-entry store b l other) (ground arith))
