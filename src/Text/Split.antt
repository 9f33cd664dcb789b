-- ===== src/Text/Split.antt =====
-- `str::split_once` and `str::contains` at a character.
use Prim.Native.Char.{code}
use Prim.Native.String.append
use text.Mathlib.TextEquality.{Char-path}
use mathlib.Core.Option.{some-injective}
use nap_cat_qq_rs.Prelude.{
  Char, String, ◌<>◌, ◌≡◌, refl, ap, Bool, true, false, ◌||◌, Option, none, some, arith, eqb,
  if◌then◌else◌,
}

unfoldable pub contains : Char → String → Bool
contains c String.[] = false
contains c (String.◌∷◌ d s) = eqb (code d) (code c) || contains c s

abbrev pub prepend : Char → Option (String × String) → Option (String × String)
prepend d none = none
prepend d (some (a, b)) = some (String.◌∷◌ d a, b)

-- The texts before and after the first `c`.
unfoldable pub split_once : Char → String → Option (String × String)
split_once c String.[] = none
split_once c (String.◌∷◌ d s) =
    if eqb (code d) (code c) then some ("", s) else prepend d (split_once c s)

-- The first part of a joined text comes back, if the separator is not in it.
pub split_once-append :
    (c : Char) (a b : String)
    → contains c a ≡ false
    → split_once c (a <> String.◌∷◌ c b) ≡ some (a, b)
unfolding split_once contains
split_once-append c String.[] b h = rw (append.nil (String.◌∷◌ c b)) (ground arith)
split_once-append c (String.◌∷◌ d a) b h =
    rw (append.cons d a (String.◌∷◌ c b)) (ground (arith, split_once-append c a b))

-- Equal pairs under `some` have equal parts.
pub parts {ℓ κ} :
    {A : Type ℓ} {B : Type κ} {a c : A} {b d : B}
    → ◌≡◌ {A = Option (A × B)} (some (a, b)) (some (c, d))
    → (a ≡ c) × (b ≡ d)
parts {A = A} {B = B} h =
    let e = some-injective _ _ h in (ap (λ (p : A × B). p.0) e, ap (λ (p : A × B). p.1) e)

join_step :
    (c d : Char) (s a b : String) (t : Bool) (r : Option (String × String))
    → eqb (code d) (code c) ≡ t
    → ((x y : String) → r ≡ some (x, y) → (s ≡ x <> String.◌∷◌ c y) × (contains c x ≡ false))
    → (if t then some ("", s) else prepend d r) ≡ some (a, b)
    → (String.◌∷◌ d s ≡ a <> String.◌∷◌ c b) × (contains c a ≡ false)
unfolding contains
join_step c d s a b true r test ih h =
    let (first, second) = parts h in
    rw (← first, ← second) (ground (arith, append.nil (String.◌∷◌ c s), Char-path d c))
join_step c d s a b false none test ih h = cc
join_step c d s a b false (some (x, y)) test ih h =
    let (first, second) = parts h in
    let (joined, absent) = ih x y refl in
    rw (← first, ← second) (ground (arith, joined, absent, append.cons d x (String.◌∷◌ c y)))

-- A text that splits is its parts, joined.
pub split_once_join :
    (c : Char) (s a b : String)
    → split_once c s ≡ some (a, b)
    → (s ≡ a <> String.◌∷◌ c b) × (contains c a ≡ false)
unfolding split_once
split_once_join c String.[] a b h = cc
split_once_join c (String.◌∷◌ d s) a b h =
    join_step c d s a b (eqb (code d) (code c)) (split_once c s) refl (split_once_join c s) h
