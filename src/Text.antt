-- ===== src/Text.antt =====
-- The text operations of Rust's standard library that the crates call: `trim`, `is_empty`,
-- `split_once`, `contains` and the `Display` and `parse` of an unsigned integer. A `String` is a
-- sequence of Unicode scalar values, as a Rust `str` is, and `code c` is the number of `c`.
pub mod Split
pub mod Decimal
pub mod Sort
pub mod Blank
pub mod Words
pub mod Prefix
use Prim.Native.Char.{code}
use nap_cat_qq_rs.Prelude.{ℕ, ◌+◌, Char, String, ◌==◌, Bool, ◌&&◌, ◌||◌, if◌then◌else◌, leb, eqb}

-- `char::is_whitespace`: the Unicode property White_Space.
unfoldable pub is_whitespace : Char → Bool
is_whitespace c =
    let n = code c in
    (leb 9 n && leb n 13)
    || eqb n 32
    || eqb n 133
    || eqb n 160
    || eqb n 5760
    || (leb 8192 n && leb n 8202)
    || eqb n 8232
    || eqb n 8233
    || eqb n 8239
    || eqb n 8287
    || eqb n 12288

unfoldable pub trim_start : String → String
unfolding is_whitespace
trim_start String.[] = ""
trim_start (String.◌∷◌ c s) =
    let rest = trim_start s in if is_whitespace c then rest else String.◌∷◌ c s

-- A white character goes if nothing but white characters follows it.
unfoldable pub trim_end : String → String
unfolding is_whitespace
trim_end String.[] = ""
trim_end (String.◌∷◌ c s) =
    let rest = trim_end s in if is_whitespace c && rest == "" then "" else String.◌∷◌ c rest

unfoldable pub trim : String → String
unfolding trim_start trim_end
trim s = trim_end (trim_start s)

-- `s.trim().is_empty()`
unfoldable pub is_blank : String → Bool
unfolding trim
is_blank s = trim s == ""

-- The bytes of a character in UTF-8.
utf8_width : Char → ℕ
utf8_width c =
    let n = code c in
    if leb n 127 then 1 else if leb n 2047 then 2 else if leb n 65535 then 3 else 4

-- `str::len`
unfoldable pub byte_length : String → ℕ
unfolding utf8_width
byte_length String.[] = 0
byte_length (String.◌∷◌ c s) = utf8_width c + byte_length s
