-- ===== src/Storage/Unordered.antt =====
-- The order in which the hash map of a `MemoryStore` is iterated, which Rust does not fix, in the
-- answers of napcat-rs/crates/storage.
use Prim.Native.Char.{nul}
use mathlib.Core.Path.{ap₂, subst}
use mathlib.Core.List.{Permᴰ}
use mathlib.Core.List.Permᴰ
use mathlib.Core.List.Permᴰ.{nil, cons, swap, trans}
use nap_cat_qq_rs.Prelude.{
  ◌-◌, String, eq_iff, ◌≡◌, refl, sym, ap, ◌∙◌, Bool, Option, none, some, List, [], ◌∷◌, map, ok,
  length, retain, length-Permᴰ, Result-cases, inl, inr, ◌>>=◌, arith, if◌then◌else◌,
}
use nap_cat_qq_rs.Text.Split.{split_once}
use nap_cat_qq_rs.Text.Sort.Order.{sort-Permᴰ}
use nap_cat_qq_rs.HashMap
use nap_cat_qq_rs.HashMap.{HashMap, IsFresh, HasUniqueKeys}
use nap_cat_qq_rs.Storage.{
  StoredRecord, MemoryStore, validate_namespace, qualified_key, key_in, filter_map, get, keys,
  count_namespace, clear_namespace,
}

map-Permᴰ : {A B : Type 0} (f : A → B) {xs ys : List A} → Permᴰ xs ys → Permᴰ (map f xs) (map f ys)
map-Permᴰ f nil = nil
map-Permᴰ f (cons e p) = cons (ap f e) (map-Permᴰ f p)
map-Permᴰ f (swap e g) = swap (ap f e) (ap f g)
map-Permᴰ f (trans p q) = trans (map-Permᴰ f p) (map-Permᴰ f q)

-- One element in front, if it is kept.
abbrev in_front : {A : Type 0} → Option A → List A → List A
in_front none xs = xs
in_front (some x) xs = x ∷ xs

in_front-cons :
    {A : Type 0} (o : Option A) {xs ys : List A}
    → Permᴰ xs ys
    → Permᴰ (in_front o xs) (in_front o ys)
in_front-cons none p = p
in_front-cons (some x) p = cons refl p

in_front-swap :
    {A : Type 0} (o q : Option A) (xs : List A)
    → Permᴰ (in_front o (in_front q xs)) (in_front q (in_front o xs))
in_front-swap none q xs = Permᴰ.refl _
in_front-swap (some x) none xs = Permᴰ.refl _
in_front-swap (some x) (some y) xs = swap refl refl

filter_map-front :
    {A B : Type 0} (f : A → Option B) (x : A) (xs : List A)
    → filter_map f (x ∷ xs) ≡ in_front (f x) (filter_map f xs)
unfolding filter_map
filter_map-front f x xs = ground arith

filter_map-Permᴰ :
    {A B : Type 0} (f : A → Option B) {xs ys : List A}
    → Permᴰ xs ys
    → Permᴰ (filter_map f xs) (filter_map f ys)
filter_map-Permᴰ f nil = Permᴰ.refl _
filter_map-Permᴰ f (cons {a} {b} {l₁ = xs} {l₂ = ys} e p) =
    rw (filter_map-front f a xs, filter_map-front f b ys, e)
      (in_front-cons (f b) (filter_map-Permᴰ f p))
filter_map-Permᴰ f (swap {a} {b} {a' = c} {b' = d} {l = xs} e g) =
    rw
      (
        filter_map-front f a (b ∷ xs),
        filter_map-front f b xs,
        filter_map-front f c (d ∷ xs),
        filter_map-front f d xs,
        e,
        g,
      )
      (in_front-swap (f d) (f c) (filter_map f xs))
filter_map-Permᴰ f (trans p q) = trans (filter_map-Permᴰ f p) (filter_map-Permᴰ f q)

abbrev kept : {A : Type 0} → (A → Bool) → A → Option A
kept p x = if p x then some x else none

retain-filter_map : {A : Type 0} (p : A → Bool) (xs : List A) → retain p xs ≡ filter_map (kept p) xs
unfolding retain filter_map
retain-filter_map p [] = refl
retain-filter_map p (x ∷ xs) = ground (arith, retain-filter_map p xs)

length-retain_Permᴰ :
    {A : Type 0} (p : A → Bool) {xs ys : List A}
    → Permᴰ xs ys
    → length (retain p xs) ≡ length (retain p ys)
length-retain_Permᴰ p {xs} {ys} q =
    rw (retain-filter_map p xs, retain-filter_map p ys) (length-Permᴰ (filter_map-Permᴰ (kept p) q))

module _ {V : Type 0} where
  IsFresh-Permᴰ : (k : String) {m n : HashMap V} → Permᴰ m n → IsFresh k m → IsFresh k n
  IsFresh-Permᴰ k nil h = h
  IsFresh-Permᴰ k (cons e p) h = rw (← e) (h.0, IsFresh-Permᴰ k p h.1)
  IsFresh-Permᴰ k (swap e f) h = rw (← e, ← f) (h.1.0, (h.0, h.1.1))
  IsFresh-Permᴰ k (trans p q) h = IsFresh-Permᴰ k q (IsFresh-Permᴰ k p h)

  HasUniqueKeys-Permᴰ : {m n : HashMap V} → Permᴰ m n → HasUniqueKeys m → HasUniqueKeys n
  HasUniqueKeys-Permᴰ nil h = h
  HasUniqueKeys-Permᴰ (cons {a} e p) h =
      rw (← e) (IsFresh-Permᴰ a.0 p h.0, HasUniqueKeys-Permᴰ p h.1)
  HasUniqueKeys-Permᴰ (swap {l = l} e f) h =
      let first = ap (λ (x : String × V). x.0) e in
      let second = ap (λ (x : String × V). x.0) f in
      (
        (λ q. h.0.0 (first ∙ sym q ∙ sym second), subst (λ k. IsFresh k l) second h.1.0),
        (subst (λ k. IsFresh k l) first h.0.1, h.1.1),
      )
  HasUniqueKeys-Permᴰ (trans p q) h = HasUniqueKeys-Permᴰ q (HasUniqueKeys-Permᴰ p h)

  get-Permᴰ :
      (k : String) {m n : HashMap V}
      → Permᴰ m n
      → HasUniqueKeys m
      → HashMap.get k m ≡ HashMap.get k n
  unfolding HashMap.get
  get-Permᴰ k nil h = refl
  get-Permᴰ k (cons {a} {b} e p) h = rw (e, get-Permᴰ k p h.1) refl
  get-Permᴰ k (swap {a} {b} e f) h =
      rw (← e, ← f) (ground (arith, h.0.0, eq_iff a.0 k, eq_iff b.0 k))
  get-Permᴰ k (trans p q) h = get-Permᴰ k p h ∙ get-Permᴰ k q (HasUniqueKeys-Permᴰ p h)

-- The order in which the map is iterated shows in no answer: two stores that hold the same entries,
-- each key once, in whatever orders, answer alike to `get`, `keys`, `count_namespace` and
-- `clear_namespace`, for all names.
pub order_unobserved :
    {Value : Type 0} (m n : HashMap (StoredRecord Value)) (namespace key : String)
    → Permᴰ m n
    → HasUniqueKeys m
    → let left : MemoryStore Value = record { values = m } in
      let right : MemoryStore Value = record { values = n } in
      (get left namespace key ≡ get right namespace key)
      × (keys left namespace ≡ keys right namespace)
      × (count_namespace left namespace ≡ count_namespace right namespace)
      × ((clear_namespace left namespace).0 ≡ (clear_namespace right namespace).0)
unfolding get keys count_namespace clear_namespace
order_unobserved m n namespace key p unique = (
  rw (get-Permᴰ (qualified_key namespace key) p unique) refl,
  rw
      (sort-Permᴰ
        (filter_map-Permᴰ (λ q. key_in namespace (split_once nul q)) (map-Permᴰ (λ e. e.0) p)))
      refl,
  ap (λ c. validate_namespace namespace >>= λ _. ok c)
      (length-retain_Permᴰ _ (map-Permᴰ (λ e. e.0) p)),
  elim (Result-cases (validate_namespace namespace)) [
    | inl (u, h) ↦
        rw (clear_namespace, h) (ap₂ (λ a b. ok (a - b)) (length-Permᴰ p) (length-retain_Permᴰ _ p))
    | inr (e, h) ↦ rw (clear_namespace, h) refl
  ],
)
