-- ===== src/OsPath.antt =====
-- `std::path` on Unix, as far as napcat-rs/crates/storage uses it: a path is a text in which bytes
-- may stand that are no UTF-8.
pub mod Laws
use Prim.Native.Char.{code}
use mathlib.Core.List.{reverse}
use nap_cat_qq_rs.Prelude.{
  ℕ, Char, String, ◌==◌, Bool, true, false, not, ◌&&◌, ◌||◌, Option, none, some, List, [], ◌∷◌,
  ◌++◌, eqb, if◌then◌else◌,
}

-- A character, or a run of bytes that is not UTF-8.
pub data OsUnit : Type 0 where
  char : Char → OsUnit
  stray : List ℕ → OsUnit

abbrev pub PathBuf : Type 0
PathBuf = List OsUnit

-- `PathBuf::from`
unfoldable pub of_str : String → PathBuf
of_str String.[] = []
of_str (String.◌∷◌ c s) = char c ∷ of_str s

-- The text of a path with the character in front of it, if it is one.
abbrev pub with_unit : OsUnit → Option String → Option String
with_unit (char c) (some s) = some (String.◌∷◌ c s)
with_unit _ _ = none

-- `Path::to_str`
unfoldable pub to_str : PathBuf → Option String
to_str [] = some ""
to_str (u ∷ p) = with_unit u (to_str p)

-- `Path::display`: a run that is not UTF-8 is shown as U+FFFD.
unfoldable pub display : PathBuf → String
display [] = ""
display (char c ∷ p) = String.◌∷◌ c (display p)
display (stray bytes ∷ p) = String.◌∷◌ (Char.char 65533 tt) (display p)

unfoldable pub is_separator : OsUnit → Bool
is_separator (char c) = eqb (code c) 47
is_separator (stray bytes) = false

unfoldable pub is_absolute : PathBuf → Bool
unfolding is_separator
is_absolute [] = false
is_absolute (u ∷ p) = is_separator u

-- `as_os_str() == text`
unfoldable pub is_text : PathBuf → String → Bool
unfolding to_str
is_text p s = elim (to_str p) [ none ↦ false | some t ↦ t == s ]

-- Whether a separator is missing at the end; an empty path needs none.
needs_separator : PathBuf → Bool
unfolding is_separator
needs_separator [] = false
needs_separator (u ∷ []) = not (is_separator u)
needs_separator (u ∷ v ∷ p) = needs_separator (v ∷ p)

-- `Path::join`
unfoldable pub join : PathBuf → PathBuf → PathBuf
unfolding is_absolute needs_separator
join dir p =
    if is_absolute p then p else if needs_separator dir then dir ++ char "/" ∷ p else dir ++ p

abbrev in_first : OsUnit → List PathBuf → List PathBuf
in_first u [] = (u ∷ []) ∷ []
in_first u (part ∷ parts) = (u ∷ part) ∷ parts

-- The parts between the separators.
unfoldable pub segments : PathBuf → List PathBuf
unfolding is_separator
segments [] = [] ∷ []
segments (u ∷ p) = let rest = segments p in if is_separator u then [] ∷ rest else in_first u rest

-- A part that is no component: an empty one, or a dot that does not begin a relative path.
is_noise : (leading : Bool) → PathBuf → Bool
is_noise leading [] = true
is_noise leading (char c ∷ []) = eqb (code c) 46 && not leading
is_noise leading _ = false

-- The parts, the last one first, from the last component on.
from_component : (relative : Bool) → List PathBuf → List PathBuf
unfolding is_noise
from_component relative [] = []
from_component relative (part ∷ []) = if is_noise relative part then [] else part ∷ []
from_component relative (part ∷ next ∷ parts) =
    let rest = from_component relative (next ∷ parts) in
    if is_noise false part then rest else part ∷ next ∷ parts

-- The parts, the last one first, with a separator between them.
rejoin : List PathBuf → PathBuf
rejoin [] = []
rejoin (part ∷ []) = part
rejoin (part ∷ next ∷ parts) = rejoin (next ∷ parts) ++ char "/" ∷ part

-- Without the last component and what follows it.
above : (relative : Bool) → List PathBuf → Option PathBuf
unfolding from_component rejoin
above relative parts = elim (from_component relative parts) [
  | [] ↦ none
  | last ∷ rest ↦ some (rejoin (from_component relative rest))
]

abbrev rooted : Option PathBuf → Option PathBuf
rooted none = none
rooted (some p) = some (char "/" ∷ p)

-- `Path::parent`
unfoldable pub parent : PathBuf → Option PathBuf
unfolding is_separator segments above
parent [] = none
parent (u ∷ p) =
    if is_separator u
    then rooted (above false (reverse (segments p)))
    else above true (reverse (segments (u ∷ p)))
