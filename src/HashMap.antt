-- ===== src/HashMap.antt =====
-- `std::collections::HashMap<String, V>`, which every component keeps its entries in. The list holds
-- each key once at most; its order stands for the map's iteration order, which the program does not
-- fix, so that what is proved for every list holds for every order.
use nap_cat_qq_rs.Prelude.{
  ◌≡◌, refl, ap, ◌≢◌, String, ◌==◌, eq_iff, Bool, Option, none, some, List, [], ◌∷◌, map, arith,
  retain, Bool-cases, inl, inr, is_some, if◌then◌else◌,
}

abbrev pub HashMap : Type 0 → Type 0
HashMap V = List (String × V)

module _ {V : Type 0} where
  unfoldable pub get : String → HashMap V → Option V
  get k [] = none
  get k ((j, v) ∷ m) = if j == k then some v else get k m

  -- Every entry of the key goes, so that the others' order stays.
  unfoldable pub remove : String → HashMap V → HashMap V
  remove k [] = []
  remove k ((j, v) ∷ m) = let rest = remove k m in if j == k then rest else (j, v) ∷ rest

  unfoldable pub insert : String → V → HashMap V → HashMap V
  unfolding remove
  insert k v m = (k, v) ∷ remove k m

  abbrev pub contains_key : String → HashMap V → Bool
  contains_key k m = is_some (get k m)

  abbrev pub keys : HashMap V → List String
  keys = map (λ e. e.0)

  pub get-remove :
      (k j : String) (m : HashMap V) → get j (remove k m) ≡ (if k == j then none else get j m)
  unfolding get remove
  get-remove k j [] = ground arith
  get-remove k j ((i, v) ∷ m) = ground (arith, get-remove k j m, eq_iff i k, eq_iff i j, eq_iff k j)

  pub get-insert :
      (k j : String) (v : V) (m : HashMap V)
      → get j (insert k v m) ≡ (if k == j then some v else get j m)
  unfolding get insert
  get-insert k j v m = ground (arith, get-remove k j m)

  -- `retain` with a test that reads only the key.
  pub get-retain :
      (p : String → Bool) (k : String) (m : HashMap V)
      → get k (retain (λ e. p e.0) m) ≡ (if p k then get k m else none)
  unfolding get retain
  get-retain p k [] = ground arith
  get-retain p k ((j, v) ∷ m) = elim (Bool-cases (j == k)) [
    | inl same ↦
        let e = (eq_iff j k).0 same in rw same (ground (arith, same, ap p e, get-retain p k m))
    | inr differ ↦ rw differ (ground (arith, get-retain p k m, differ))
  ]

  -- Each key once.
  abbrev pub IsFresh : String → HashMap V → Type 0
  IsFresh k [] = Unit
  IsFresh k ((j, v) ∷ m) = (k ≢ j) × IsFresh k m

  abbrev pub HasUniqueKeys : HashMap V → Type 0
  HasUniqueKeys [] = Unit
  HasUniqueKeys ((k, v) ∷ m) = IsFresh k m × HasUniqueKeys m

  remove-IsFresh : (k j : String) (m : HashMap V) → IsFresh j m → IsFresh j (remove k m)
  unfolding remove
  remove-IsFresh k j [] h = tt
  remove-IsFresh k j ((i, v) ∷ m) h = ground (arith, h.0, remove-IsFresh k j m h.1)

  remove-IsFresh_self : (k : String) (m : HashMap V) → IsFresh k (remove k m)
  unfolding remove
  remove-IsFresh_self k [] = tt
  remove-IsFresh_self k ((i, v) ∷ m) = ground (arith, eq_iff i k, remove-IsFresh_self k m)

  pub remove-HasUniqueKeys :
      (k : String) (m : HashMap V) → HasUniqueKeys m → HasUniqueKeys (remove k m)
  unfolding remove
  remove-HasUniqueKeys k [] h = tt
  remove-HasUniqueKeys k ((i, v) ∷ m) h =
      ground (arith, remove-IsFresh k i m h.0, remove-HasUniqueKeys k m h.1)

  pub insert-HasUniqueKeys :
      (k : String) (v : V) (m : HashMap V) → HasUniqueKeys m → HasUniqueKeys (insert k v m)
  unfolding insert
  insert-HasUniqueKeys k v m h = (remove-IsFresh_self k m, remove-HasUniqueKeys k m h)

  pub remove_fresh : (k : String) (m : HashMap V) → get k m ≡ none → remove k m ≡ m
  unfolding get remove
  remove_fresh k [] h = refl
  remove_fresh k ((i, v) ∷ m) h = ground (arith, remove_fresh k m)

pub ruleset map_laws = (get-remove, get-insert)
