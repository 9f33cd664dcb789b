-- ===== src/Text/Sort.antt =====
-- `sort_unstable` on texts: Rust compares them as their UTF-8 bytes, which is the order of their
-- scalar values.
pub mod Order
use Prim.Native.Nat.{Ordering}
use Prim.Native.String.{compare}
use Prim.Native.String.compare
use mathlib.Core.List.{Perm}
use mathlib.Core.List.Perm
use nap_cat_qq_rs.Prelude.{
  suc, ◌≡◌, refl, ap, ◌∙◌, length, String, Bool, true, false, List, [], ◌∷◌, arith, Bool-cases, inl,
  inr, if◌then◌else◌,
}

abbrev pub le_text : String → String → Bool
le_text s t = elim (compare s t) [ Ordering.gt ↦ false | _ ↦ true ]

unfoldable pub insert_sorted : String → List String → List String
insert_sorted s [] = s ∷ []
insert_sorted s (t ∷ ts) =
    let rest = insert_sorted s ts in if le_text s t then s ∷ t ∷ ts else t ∷ rest

unfoldable pub sort : List String → List String
unfolding insert_sorted
sort [] = []
sort (s ∷ ts) = insert_sorted s (sort ts)

-- Each text is at most the next one.
abbrev FitsBefore : String → List String → Type 0
FitsBefore s [] = Unit
FitsBefore s (t ∷ ts) = le_text s t ≡ true

abbrev pub IsSorted : List String → Type 0
IsSorted [] = Unit
IsSorted (s ∷ ts) = FitsBefore s ts × IsSorted ts

pub le_text-total : (s t : String) → le_text s t ≡ false → le_text t s ≡ true
le_text-total String.[] String.[] h = cc
le_text-total String.[] (String.◌∷◌ d t) h = ground (arith, compare.nil-cons d t)
le_text-total (String.◌∷◌ c s) String.[] h = ground (arith, compare.nil-cons c s)
le_text-total (String.◌∷◌ c s) (String.◌∷◌ d t) h =
    ground (arith, compare.cons-cons c d s t, compare.cons-cons d c t s, le_text-total s t)

FitsBefore-insert :
    (u s : String) (ts : List String)
    → le_text u s ≡ true
    → FitsBefore u ts
    → FitsBefore u (insert_sorted s ts)
unfolding insert_sorted
FitsBefore-insert u s [] h k = h
FitsBefore-insert u s (t ∷ ts) h k = ground arith

insert_sorted-IsSorted :
    (s : String) (ts : List String) → IsSorted ts → IsSorted (insert_sorted s ts)
unfolding insert_sorted
insert_sorted-IsSorted s [] h = (tt, tt)
insert_sorted-IsSorted s (t ∷ ts) h = elim (Bool-cases (le_text s t)) [
  | inl le ↦ rw le (le, h)
  | inr gt ↦
      rw gt (FitsBefore-insert t s ts (le_text-total s t gt) h.0, insert_sorted-IsSorted s ts h.1)
]

pub sort-IsSorted : (ts : List String) → IsSorted (sort ts)
unfolding sort
sort-IsSorted [] = tt
sort-IsSorted (s ∷ ts) = insert_sorted-IsSorted s (sort ts) (sort-IsSorted ts)

insert_sorted-perm : (s : String) (ts : List String) → Perm (insert_sorted s ts) (s ∷ ts)
unfolding insert_sorted
insert_sorted-perm s [] = Perm.refl (s ∷ [])
insert_sorted-perm s (t ∷ ts) = elim (Bool-cases (le_text s t)) [
  | inl le ↦ rw le (Perm.refl (s ∷ t ∷ ts))
  | inr gt ↦ rw gt (Perm.trans (Perm.cons t (insert_sorted-perm s ts)) (Perm.swap s t ts))
]

pub sort-perm : (ts : List String) → Perm (sort ts) ts
unfolding sort
sort-perm [] = Perm.refl []
sort-perm (s ∷ ts) = Perm.trans (insert_sorted-perm s (sort ts)) (Perm.cons s (sort-perm ts))

length-insert_sorted :
    (s : String) (ts : List String) → length (insert_sorted s ts) ≡ suc (length ts)
unfolding insert_sorted
length-insert_sorted s [] = refl
length-insert_sorted s (t ∷ ts) = ground (arith, length-insert_sorted s ts)

pub length-sort : (ts : List String) → length (sort ts) ≡ length ts
unfolding sort
length-sort [] = refl
length-sort (s ∷ ts) = length-insert_sorted s (sort ts) ∙ ap suc (length-sort ts)
