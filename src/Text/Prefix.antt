-- ===== src/Text/Prefix.antt =====
-- `str::strip_prefix` and `str::trim_start_matches` with a text.
use Prim.Native.Char.{code}
use Prim.Native.String.append
use nap_cat_qq_rs.Prelude.{
  ℕ, suc, ◌+◌, ◌≤◌, Char, String, ◌<>◌, ◌≡◌, refl, Option, none, some, arith, eqb, Option-cases,
  inl, inr, if◌then◌else◌,
}

unfoldable pub strip_prefix : String → String → Option String
strip_prefix String.[] s = some s
strip_prefix (String.◌∷◌ c p) String.[] = none
strip_prefix (String.◌∷◌ c p) (String.◌∷◌ d s) =
    let rest = strip_prefix p s in if eqb (code c) (code d) then rest else none

-- Each character of the first text allows one cut more.
unfoldable pub trim_within : (fuel : String) → String → String → String
unfolding strip_prefix
trim_within String.[] p s = s
trim_within (String.◌∷◌ c fuel) p s = elim (strip_prefix p s) [
  | none ↦ s
  | some rest ↦ trim_within fuel p rest
]

-- `trim_start_matches`: every copy of the pattern goes that stands at the start.
unfoldable pub trim_start_matches : (pattern : String) → String → String
unfolding trim_within
trim_start_matches p s = trim_within s p s

pub strip_prefix-append : (p s : String) → strip_prefix p (p <> s) ≡ some s
unfolding strip_prefix
strip_prefix-append String.[] s = rw (append.nil s) refl
strip_prefix-append (String.◌∷◌ c p) s =
    rw (append.cons c p s) (ground (arith, strip_prefix-append p s))

-- The number of characters.
abbrev pub size : String → ℕ
size String.[] = 0
size (String.◌∷◌ c s) = suc (size s)

size-strip_prefix : (p s rest : String) → strip_prefix p s ≡ some rest → size s ≡ size p + size rest
unfolding strip_prefix
size-strip_prefix String.[] s rest h = ground (arith, h)
size-strip_prefix (String.◌∷◌ c p) String.[] rest h = cc
size-strip_prefix (String.◌∷◌ c p) (String.◌∷◌ d s) rest h =
    ground (arith, size-strip_prefix p s rest)

trim_within-ends :
    (fuel : String) (c : Char) (p s : String)
    → size s ≤ size fuel
    → strip_prefix (String.◌∷◌ c p) (trim_within fuel (String.◌∷◌ c p) s) ≡ none
unfolding trim_within
trim_within-ends String.[] c p String.[] h = refl
trim_within-ends String.[] c p (String.◌∷◌ d s) h = ground arith
trim_within-ends (String.◌∷◌ e fuel) c p s h =
    elim (Option-cases (strip_prefix (String.◌∷◌ c p) s)) [
      | inl nothing ↦ rw (trim_within, nothing) nothing
      | inr (rest, cut) ↦
          rw (trim_within, cut)
            (trim_within-ends fuel c p rest
              (omega (arith, size-strip_prefix (String.◌∷◌ c p) s rest cut)))
    ]

trim_within-stops : (fuel p s : String) → strip_prefix p s ≡ none → trim_within fuel p s ≡ s
unfolding trim_within
trim_within-stops String.[] p s h = refl
trim_within-stops (String.◌∷◌ c fuel) p s h = rw (trim_within, h) refl

trim_within-cut :
    (whole : String) (c : Char) (fuel p s rest : String)
    → whole ≡ String.◌∷◌ c fuel
    → strip_prefix p s ≡ some rest
    → strip_prefix p rest ≡ none
    → trim_within whole p s ≡ rest
unfolding trim_within
trim_within-cut whole c fuel p s rest e h k =
    rw (e, trim_within, h) (trim_within-stops fuel p rest k)

-- The cuts are enough: what is left does not start with the pattern, if that is not empty.
pub trim_start_matches-ends :
    (c : Char) (p s : String)
    → strip_prefix (String.◌∷◌ c p) (trim_start_matches (String.◌∷◌ c p) s) ≡ none
unfolding trim_start_matches
trim_start_matches-ends c p s = trim_within-ends s c p s (omega arith)

-- One copy of the pattern goes, if no other follows it.
pub trim_start_matches-append :
    (c : Char) (p s : String)
    → strip_prefix (String.◌∷◌ c p) s ≡ none
    → trim_start_matches (String.◌∷◌ c p) (String.◌∷◌ c p <> s) ≡ s
unfolding trim_start_matches
trim_start_matches-append c p s h =
    trim_within-cut (String.◌∷◌ c p <> s) c (p <> s) (String.◌∷◌ c p) (String.◌∷◌ c p <> s) s
      (append.cons c p s) (strip_prefix-append (String.◌∷◌ c p) s) h
