-- ===== src/Text/Blank.antt =====
-- What is blank: a text of white characters only, which is what trimming leaves nothing of.
use Prim.Native.String.compare
use nap_cat_qq_rs.Prelude.{
  Char, String, ◌==◌, ◌≡◌, refl, Bool, true, false, ◌&&◌, if◌then◌else◌, ap, ◌∙◌,
}
use nap_cat_qq_rs.Text.{is_whitespace, trim_start, trim_end, trim, is_blank}

unfoldable pub all_white : String → Bool
all_white String.[] = true
all_white (String.◌∷◌ c s) = is_whitespace c && all_white s

pub cons-ne-empty : (c : Char) (s : String) → (String.◌∷◌ c s == "") ≡ false
cons-ne-empty c s = rw (compare.cons-nil c s)

white_step :
    (t : Bool) (c : Char) (s rest : String)
    → is_whitespace c ≡ t
    → all_white rest ≡ all_white s
    → all_white (if t then rest else String.◌∷◌ c s) ≡ t && all_white s
unfolding all_white
white_step true c s rest w h = h
white_step false c s rest w h = ap (λ b. b && all_white s) w

all_white-trim_start : (s : String) → all_white (trim_start s) ≡ all_white s
unfolding all_white trim_start
all_white-trim_start String.[] = refl
all_white-trim_start (String.◌∷◌ c s) =
    white_step (is_whitespace c) c s (trim_start s) refl (all_white-trim_start s)

empty_step :
    (t e : Bool) (c : Char) (rest : String)
    → (rest == "") ≡ e
    → ((if t && rest == "" then "" else String.◌∷◌ c rest) == "") ≡ t && e
empty_step true true c rest h = rw h refl
empty_step true false c rest h = rw (h, cons-ne-empty c rest) refl
empty_step false e c rest h = cons-ne-empty c rest

trim_end_empty : (s : String) → (trim_end s == "") ≡ all_white s
unfolding all_white trim_end
trim_end_empty String.[] = refl
trim_end_empty (String.◌∷◌ c s) =
    empty_step (is_whitespace c) (all_white s) c (trim_end s) (trim_end_empty s)

pub is_blank-all_white : (s : String) → is_blank s ≡ all_white s
unfolding is_blank trim
is_blank-all_white s = trim_end_empty (trim_start s) ∙ all_white-trim_start s

kept_step :
    (t e : Bool) (c : Char) (rest : String)
    → is_whitespace c ≡ t
    → (rest == "") ≡ e
    → all_white rest ≡ e
    → all_white (if t && rest == "" then "" else String.◌∷◌ c rest) ≡ t && e
unfolding all_white
kept_step true true c rest w h a = rw h refl
kept_step true false c rest w h a = rw (h, w) a
kept_step false e c rest w h a = rw w refl

all_white-trim_end : (s : String) → all_white (trim_end s) ≡ all_white s
unfolding all_white trim_end
all_white-trim_end String.[] = refl
all_white-trim_end (String.◌∷◌ c s) =
    kept_step (is_whitespace c) (all_white s) c (trim_end s) refl (trim_end_empty s)
      (all_white-trim_end s)

-- Trimming keeps what is blank and what is not.
pub is_blank-trim : (s : String) → is_blank (trim s) ≡ is_blank s
unfolding trim
is_blank-trim s =
    rw
      (
        is_blank-all_white (trim_end (trim_start s)),
        all_white-trim_end (trim_start s),
        all_white-trim_start s,
        is_blank-all_white s,
      )
      refl
