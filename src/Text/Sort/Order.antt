-- ===== src/Text/Sort/Order.antt =====
-- Sorting forgets the order of its list.
use Prim.Native.String.compare
use text.Mathlib.TextEquality.{Char-path}
use mathlib.Core.Path.{ap₂}
use mathlib.Core.List.{Permᴰ}
use mathlib.Core.List.Permᴰ.{nil, cons, swap, trans}
use nap_cat_qq_rs.Prelude.{◌≡◌, refl, ◌∙◌, String, true, List, [], ◌∷◌, arith}
use nap_cat_qq_rs.Text.Sort.{le_text, le_text-total, insert_sorted, sort}

le_text-antisym : (s t : String) → le_text s t ≡ true → le_text t s ≡ true → s ≡ t
le_text-antisym String.[] String.[] h k = refl
le_text-antisym String.[] (String.◌∷◌ d t) h k = ground (arith, compare.cons-nil d t)
le_text-antisym (String.◌∷◌ c s) String.[] h k = ground (arith, compare.cons-nil c s)
le_text-antisym (String.◌∷◌ c s) (String.◌∷◌ d t) h k = ground (
  arith,
  compare.cons-cons c d s t,
  compare.cons-cons d c t s,
  le_text-antisym s t,
  Char-path c d,
)

le_text_trans : (s t u : String) → le_text s t ≡ true → le_text t u ≡ true → le_text s u ≡ true
le_text_trans String.[] t String.[] h k = refl
le_text_trans String.[] t (String.◌∷◌ e u) h k = ground (arith, compare.nil-cons e u)
le_text_trans (String.◌∷◌ c s) String.[] u h k = ground (arith, compare.cons-nil c s)
le_text_trans (String.◌∷◌ c s) (String.◌∷◌ d t) String.[] h k = ground (arith, compare.cons-nil d t)
le_text_trans (String.◌∷◌ c s) (String.◌∷◌ d t) (String.◌∷◌ e u) h k = ground (
  arith,
  compare.cons-cons c d s t,
  compare.cons-cons d e t u,
  compare.cons-cons c e s u,
  le_text_trans s t u,
)

insert_comm :
    (s t : String) (us : List String)
    → insert_sorted s (insert_sorted t us) ≡ insert_sorted t (insert_sorted s us)
unfolding insert_sorted
insert_comm s t [] = ground (arith, le_text-antisym s t, le_text-total s t)
insert_comm s t (u ∷ us) = ground (
  arith,
  le_text-antisym s t,
  le_text-total s t,
  le_text-total s u,
  le_text-total t u,
  le_text_trans s t u,
  le_text_trans t s u,
  insert_comm s t us,
)

-- Lists that differ in their order only are sorted to one list.
pub sort-Permᴰ : {xs ys : List String} → Permᴰ xs ys → sort xs ≡ sort ys
unfolding sort
sort-Permᴰ nil = refl
sort-Permᴰ (cons e p) = ap₂ insert_sorted e (sort-Permᴰ p)
sort-Permᴰ (swap {a} {b} {l = l} e f) =
    insert_comm a b (sort l) ∙ ap₂ (λ x y. insert_sorted x (insert_sorted y (sort l))) f e
sort-Permᴰ (trans p q) = sort-Permᴰ p ∙ sort-Permᴰ q
