-- ===== src/Storage/Tests.antt =====
-- Runs of `MemoryStore`, and the theorems on it at concrete inputs.
use nap_cat_qq_rs.Prelude.{
  ℕ, String, ◌≡◌, ◌≢◌, eq_iff, true, false, refl, List, length, some, [], ◌∷◌, ok,
}
use nap_cat_qq_rs.Text.{is_blank}
use nap_cat_qq_rs.Text.Split.{contains, split_once}
use nap_cat_qq_rs.Text.Sort.{sort, IsSorted}
use nap_cat_qq_rs.HashMap
use nap_cat_qq_rs.Storage.{
  MemoryStore, validate_namespace, validate_namespace_and_key, qualified_key, put, get, keys,
  clear_namespace, count_namespace,
}
use nap_cat_qq_rs.Storage.Laws.{IsName, collision}
use nap_cat_qq_rs.Storage.Unordered.{order_unobserved}
use mathlib.Core.List.Permᴰ.{swap}
use nap_cat_qq_rs.Storage.{StoredRecord}
use nap_cat_qq_rs.HashMap.{HashMap}
use nap_cat_qq_rs.Storage.Listing.{listing_agrees}

abbrev empty_store : MemoryStore ℕ
empty_store = record { values = [] }

abbrev two_records : MemoryStore ℕ
two_records = (put (put empty_store "qq" "b" 1 10 11).1 "qq" "a" 2 12 13).1

keys_sorted : keys two_records "qq" ≡ ok ("a" ∷ "b" ∷ [])
unfolding put HashMap.insert HashMap.get HashMap.remove validate_namespace_and_key is_blank
    qualified_key keys split_once sort
keys_sorted = refl

qq-IsName : IsName "qq" "a"
unfolding validate_namespace_and_key is_blank contains
qq-IsName = record { accepted = refl; plain = refl }

wx-IsName : IsName "wx" "a"
unfolding validate_namespace_and_key is_blank contains
wx-IsName = record { accepted = refl; plain = refl }

collision_example :
    get (put empty_store (qualified_key "a" "b") "k" 1 2 3).1 "a" (qualified_key "b" "k")
    ≡ ok (
        some (record {
          namespace = qualified_key "a" "b";
          key = "k";
          value = 1;
          created_at = 3;
          updated_at = 3;
        }))
unfolding HashMap.get validate_namespace_and_key is_blank qualified_key
collision_example = collision empty_store "a" "b" "k" 1 2 3 refl refl

listing_agrees_example :
    (ks : List String) × (keys two_records "qq" ≡ ok ks)
    × IsSorted ks
    × (count_namespace two_records "qq" ≡ ok (length ks))
    × ((clear_namespace two_records "qq").0 ≡ ok (length ks))
    × (keys (clear_namespace two_records "qq").1 "qq" ≡ ok [])
    × (count_namespace (clear_namespace two_records "qq").1 "qq" ≡ ok 0)
unfolding validate_namespace is_blank contains
listing_agrees_example = listing_agrees "qq" refl two_records refl

abbrev entry_a : String × StoredRecord ℕ
entry_a = (
  qualified_key "qq" "a",
  record { namespace = "qq"; key = "a"; value = 1; created_at = 10; updated_at = 10 },
)

abbrev entry_b : String × StoredRecord ℕ
entry_b = (
  qualified_key "qq" "b",
  record { namespace = "qq"; key = "b"; value = 2; created_at = 11; updated_at = 11 },
)

abbrev one_way : MemoryStore ℕ
one_way = record { values = entry_a ∷ entry_b ∷ [] }

abbrev other_way : MemoryStore ℕ
other_way = record { values = entry_b ∷ entry_a ∷ [] }

entries_differ : qualified_key "qq" "a" ≢ qualified_key "qq" "b"
unfolding qualified_key
entries_differ e =
    let same : false ≡ true = (eq_iff (qualified_key "qq" "a") (qualified_key "qq" "b")).1 e in
    cc (same)

order_unobserved_example :
    (get one_way "qq" "a" ≡ get other_way "qq" "a")
    × (keys one_way "qq" ≡ keys other_way "qq")
    × (count_namespace one_way "qq" ≡ count_namespace other_way "qq")
    × ((clear_namespace one_way "qq").0 ≡ (clear_namespace other_way "qq").0)
unfolding qualified_key
order_unobserved_example =
    order_unobserved one_way.values other_way.values "qq" "a" (swap refl refl)
      ((entries_differ, tt), (tt, tt))
