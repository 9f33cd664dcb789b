-- ===== src/OsPath/Laws.antt =====
-- Paths of texts, read back.
use mathlib.Core.Option.{some-injective}
use nap_cat_qq_rs.Prelude.{
  Char, String, Option, ◌==◌, ◌≡◌, ◌≢◌, refl, ap, ◌∙◌, eq_iff, true, false, none, some, [], ◌∷◌,
  arith,
}
use nap_cat_qq_rs.OsPath.{
  PathBuf, OsUnit, char, stray, of_str, to_str, with_unit, is_absolute, is_text, join, parent,
  segments, is_separator,
}

pub to_str-of_str : (s : String) → to_str (of_str s) ≡ some s
unfolding to_str of_str
to_str-of_str String.[] = refl
to_str-of_str (String.◌∷◌ c s) = rw (to_str-of_str s) refl

pub is_text-of_str : (s t : String) → is_text (of_str s) t ≡ (s == t)
unfolding is_text
is_text-of_str s t = rw (is_text, to_str-of_str s) refl

with_unit_inverse :
    (u : OsUnit) (o : Option String) (c : Char) (t : String)
    → with_unit u o ≡ some (String.◌∷◌ c t)
    → (u ≡ char c) × (o ≡ some t)
with_unit_inverse (char d) (some s) c t h = ground (arith, h)
with_unit_inverse (char d) none c t h = cc
with_unit_inverse (stray bytes) o c t h = cc

with_unit_nonempty : (u : OsUnit) (o : Option String) → with_unit u o ≢ some ""
with_unit_nonempty (char c) (some s) h = cc
with_unit_nonempty (char c) none h = cc
with_unit_nonempty (stray bytes) o h = cc

-- A path of a text is that text's path.
pub to_str_inverse : (p : PathBuf) (s : String) → to_str p ≡ some s → p ≡ of_str s
unfolding to_str of_str
to_str_inverse [] s h = rw (← some-injective _ _ h) refl
to_str_inverse (u ∷ p) String.[] h = elim (with_unit_nonempty u (to_str p) h) [ ]
to_str_inverse (u ∷ p) (String.◌∷◌ c s) h =
    let (same, rest) = with_unit_inverse u (to_str p) c s h in
    rw (same, to_str_inverse p s rest) refl

text_found :
    (p : PathBuf) (s : String) (o : Option String)
    → to_str p ≡ o
    → (elim o [ none ↦ false | some t ↦ t == s ]) ≡ true
    → p ≡ of_str s
text_found p s none e h = cc
text_found p s (some t) e h = to_str_inverse p s (e ∙ ap some ((eq_iff t s).0 h))

pub is_text_inverse : (p : PathBuf) (s : String) → is_text p s ≡ true → p ≡ of_str s
unfolding is_text
is_text_inverse p s h = text_found p s (to_str p) refl h

-- What is joined to an absolute path is absolute.
pub join-is_absolute : (dir p : PathBuf) → is_absolute dir ≡ true → is_absolute (join dir p) ≡ true
unfolding join is_absolute
join-is_absolute [] p h = cc
join-is_absolute (u ∷ dir) p h = ground (arith, h)

parent_plain : parent (of_str "/a/b.db") ≡ some (of_str "/a")
unfolding parent segments of_str is_separator
parent_plain = refl

parent_slashes : parent (of_str "//a//./b/./") ≡ some (of_str "//a")
unfolding parent segments of_str is_separator
parent_slashes = refl

parent_root : parent (of_str "/.") ≡ none
unfolding parent segments of_str is_separator
parent_root = refl

parent_relative : parent (of_str "./b") ≡ some (of_str ".")
unfolding parent segments of_str is_separator
parent_relative = refl
