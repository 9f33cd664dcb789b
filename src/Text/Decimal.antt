-- ===== src/Text/Decimal.antt =====
-- `to_string` and `str::parse` of an unsigned integer type with `bound` values.
use Prim.Native.Char.{code}
use nap_cat_qq_rs.Prelude.{
  ℕ, zero, suc, ◌+◌, ◌-◌, ◌*◌, ◌/◌, ◌%◌, ◌<◌, Char, String, ◌≡◌, refl, ap, sym, ◌∙◌, Bool, ◌&&◌,
  Bool-cases, inl, inr, arith, Result, ok, err, if◌then◌else◌, leb, ltb, eqb,
}

-- `IntErrorKind`, of those that an unsigned parse gives.
pub data ParseIntError : Type 0 where
  empty invalid_digit pos_overflow : ParseIntError

-- The error's `Display`.
unfoldable pub describe : ParseIntError → String
describe empty = "cannot parse integer from empty string"
describe invalid_digit = "invalid digit found in string"
describe pos_overflow = "number too large to fit in target type"

digit : ℕ → Char
digit zero = "0"
digit (suc zero) = "1"
digit (suc (suc zero)) = "2"
digit (suc (suc (suc zero))) = "3"
digit (suc (suc (suc (suc zero)))) = "4"
digit (suc (suc (suc (suc (suc zero))))) = "5"
digit (suc (suc (suc (suc (suc (suc zero)))))) = "6"
digit (suc (suc (suc (suc (suc (suc (suc zero))))))) = "7"
digit (suc (suc (suc (suc (suc (suc (suc (suc zero)))))))) = "8"
digit _ = "9"

code-digit : (d : ℕ) → d < 10 → code (digit d) ≡ 48 + d
unfolding digit
code-digit zero h = refl
code-digit (suc zero) h = refl
code-digit (suc (suc zero)) h = refl
code-digit (suc (suc (suc zero))) h = refl
code-digit (suc (suc (suc (suc zero)))) h = refl
code-digit (suc (suc (suc (suc (suc zero))))) h = refl
code-digit (suc (suc (suc (suc (suc (suc zero)))))) h = refl
code-digit (suc (suc (suc (suc (suc (suc (suc zero))))))) h = refl
code-digit (suc (suc (suc (suc (suc (suc (suc (suc zero)))))))) h = refl
code-digit _ h = omega arith

-- The fuel is above the number, and each round divides it by ten.
emit : ℕ → ℕ → String → String
emit zero n out = out
emit (suc f) n out =
    let rest = emit f (n / 10) (String.◌∷◌ (digit (n % 10)) out) in
    if ltb n 10 then String.◌∷◌ (digit n) out else rest

unfoldable pub to_decimal : ℕ → String
unfolding emit digit
to_decimal n = emit (suc n) n ""

is_digit : Char → Bool
is_digit c = leb 48 (code c) && leb (code c) 57

parse_digits : ℕ → ℕ → String → Result ParseIntError ℕ
parse_digits bound n String.[] = ok n
parse_digits bound n (String.◌∷◌ c s) =
    let next = n * 10 + (code c - 48) in
    let rest = parse_digits bound next s in
    if is_digit c then (if ltb next bound then rest else err pos_overflow) else err invalid_digit

-- A leading `+` is allowed, and a lone sign is an invalid digit.
parse_sign : ℕ → Char → String → Result ParseIntError ℕ
parse_sign bound c String.[] = parse_digits bound 0 (String.◌∷◌ c "")
parse_sign bound c (String.◌∷◌ d s) =
    if eqb (code c) 43
    then parse_digits bound 0 (String.◌∷◌ d s)
    else parse_digits bound 0 (String.◌∷◌ c (String.◌∷◌ d s))

unfoldable pub parse_uint : ℕ → String → Result ParseIntError ℕ
unfolding parse_digits is_digit parse_sign
parse_uint bound String.[] = err empty
parse_uint bound (String.◌∷◌ c s) = parse_sign bound c s

parse_digits-digit :
    (bound n d : ℕ) (s : String)
    → d < 10
    → n * 10 + d < bound
    → parse_digits bound n (String.◌∷◌ (digit d) s) ≡ parse_digits bound (n * 10 + d) s
unfolding parse_digits is_digit
parse_digits-digit bound n d s h k = ground (arith, code-digit d h)

parse_digits-emit :
    (bound f n : ℕ) (out : String)
    → n < f
    → n < bound
    → parse_digits bound 0 (emit f n out) ≡ parse_digits bound n out
unfolding emit
parse_digits-emit bound zero n out h k = elim h [ ]
parse_digits-emit bound (suc f) n out h k = ground (
  arith,
  parse_digits-digit bound 0 n out,
  parse_digits-emit bound f (n / 10) (String.◌∷◌ (digit (n % 10)) out),
  parse_digits-digit bound (n / 10) (n % 10) out,
)

-- What is printed begins with a digit.
emit_head :
    (f n : ℕ) (out : String)
    → n < f
    → (d : ℕ) × (s : String) × (d < 10) × (emit f n out ≡ String.◌∷◌ (digit d) s)
unfolding emit
emit_head zero n out h = elim h [ ]
emit_head (suc f) n out h = elim (Bool-cases (ltb n 10)) [
  | inl small ↦ (n, out, ground arith, rw small)
  | inr large ↦ rw large (emit_head f (n / 10) (String.◌∷◌ (digit (n % 10)) out) (ground arith))
]

parse_sign-digit :
    (bound d : ℕ) (s : String)
    → d < 10
    → parse_sign bound (digit d) s ≡ parse_digits bound 0 (String.◌∷◌ (digit d) s)
unfolding parse_sign
parse_sign-digit bound d String.[] h = refl
parse_sign-digit bound d (String.◌∷◌ c s) h = ground (arith, code-digit d h)

parse_uint-emit :
    (bound n d : ℕ) (s : String)
    → n < bound
    → d < 10
    → emit (suc n) n "" ≡ String.◌∷◌ (digit d) s
    → parse_uint bound (emit (suc n) n "") ≡ ok n
unfolding parse_uint
parse_uint-emit bound n d s h small e = rw e (
    parse_sign-digit bound d s small
    ∙ ap (parse_digits bound 0) (sym e)
    ∙ (unfold parse_digits in parse_digits-emit bound (suc n) n "" (omega arith) h))

-- Parsing what was printed gives the number back, if the type holds it.
pub parse_uint-to_decimal : (bound n : ℕ) → n < bound → parse_uint bound (to_decimal n) ≡ ok n
parse_uint-to_decimal bound n h =
    let (d, s, small, e) = emit_head (suc n) n "" (omega arith) in
    unfold to_decimal in parse_uint-emit bound n d s h small e

parse_digits-lt :
    (bound n : ℕ) (s : String) (m : ℕ) → n < bound → parse_digits bound n s ≡ ok m → m < bound
unfolding parse_digits is_digit
parse_digits-lt bound n String.[] m h e = ground arith
parse_digits-lt bound n (String.◌∷◌ c s) m h e =
    ground (arith, parse_digits-lt bound (n * 10 + (code c - 48)) s m)

parse_sign-lt :
    (bound : ℕ) (c : Char) (s : String) (m : ℕ)
    → 0 < bound
    → parse_sign bound c s ≡ ok m
    → m < bound
unfolding parse_sign
parse_sign-lt bound c String.[] m h e = parse_digits-lt bound 0 (String.◌∷◌ c "") m h e
parse_sign-lt bound c (String.◌∷◌ d s) m h e = ground (
  arith,
  parse_digits-lt bound 0 (String.◌∷◌ d s) m,
  parse_digits-lt bound 0 (String.◌∷◌ c (String.◌∷◌ d s)) m,
)

-- A parsed number fits the type.
pub parse_uint-lt :
    (bound : ℕ) (s : String) (m : ℕ) → 0 < bound → parse_uint bound s ≡ ok m → m < bound
unfolding parse_uint
parse_uint-lt bound String.[] m h e = cc
parse_uint-lt bound (String.◌∷◌ c s) m h e = parse_sign-lt bound c s m h e

-- Numbers that print alike are equal.
pub to_decimal-injective : (m n : ℕ) → to_decimal m ≡ to_decimal n → m ≡ n
to_decimal-injective m n h =
    ground (arith, parse_uint-to_decimal (suc (m + n)) m, parse_uint-to_decimal (suc (m + n)) n)
