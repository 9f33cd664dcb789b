-- ===== src/Text/Words.antt =====
-- `str::split` at a character, and the texts that it splits into their words.
use Prim.Native.Char.{code}
use Prim.Native.String.append
use nap_cat_qq_rs.Prelude.{
  Char, String, ◌<>◌, ◌≡◌, refl, false, List, [], ◌∷◌, arith, eqb, if◌then◌else◌,
}
use nap_cat_qq_rs.Text.Split.{contains}

abbrev pub prepend_first : Char → List String → List String
prepend_first d [] = String.◌∷◌ d "" ∷ []
prepend_first d (word ∷ words) = String.◌∷◌ d word ∷ words

-- The parts between the separators; there is one more part than separators.
unfoldable pub split : Char → String → List String
split c String.[] = "" ∷ []
split c (String.◌∷◌ d s) =
    let rest = split c s in if eqb (code d) (code c) then "" ∷ rest else prepend_first d rest

-- The words with a separator between them.
abbrev pub join : Char → List String → String
join c [] = ""
join c (word ∷ []) = word
join c (word ∷ next ∷ words) = word <> String.◌∷◌ c (join c (next ∷ words))

-- No word has the separator.
abbrev pub AreWords : Char → List String → Type 0
AreWords c [] = Unit {0}
AreWords c (word ∷ words) = (contains c word ≡ false) × AreWords c words

split_word : (c : Char) (word : String) → contains c word ≡ false → split c word ≡ word ∷ []
unfolding split contains
split_word c String.[] h = refl
split_word c (String.◌∷◌ d s) h = ground (arith, split_word c s)

pub split-append :
    (c : Char) (word s : String)
    → contains c word ≡ false
    → split c (word <> String.◌∷◌ c s) ≡ word ∷ split c s
unfolding split contains
split-append c String.[] s h = rw (append.nil (String.◌∷◌ c s)) (ground arith)
split-append c (String.◌∷◌ d word) s h =
    rw (append.cons d word (String.◌∷◌ c s)) (ground (arith, split-append c word s))

-- Joined words come back, if there is one at least.
pub split-join :
    (c : Char) (word : String) (words : List String)
    → contains c word ≡ false
    → AreWords c words
    → split c (join c (word ∷ words)) ≡ word ∷ words
split-join c word [] h k = split_word c word h
split-join c word (next ∷ words) h (k, l) =
    rw (split-append c word (join c (next ∷ words)) h, split-join c next words k l) refl
