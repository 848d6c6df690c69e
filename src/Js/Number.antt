-- ===== src/Js/Number.antt =====
-- `parseInt(raw, 10)` and `Math.max` as the configuration code uses them. `none` is NaN.
-- Numbers are exact: the rounding of integers above 2 ^ 53 is not modelled.
use Prim.Native.Char.{code}
use nestjs_saas.Prelude.{
  ℕ, zero, suc, ◌+◌, ◌*◌, ◌-◌, Bool, ◌&&◌, Option, none, some, String, leb, nat_eq, if◌then◌else◌,
  ◌≡◌, refl, or_default,
}
use nestjs_saas.Js.Text.{trim_start}

-- `negsuc n` is -(n + 1).
pub data ℤ : Type 0 where
  pos : ℕ → ℤ
  negsuc : ℕ → ℤ

-- `Math.max(n, z)` for a natural `n`
abbrev pub math_max : ℕ → ℤ → ℕ
math_max n (pos m) = if leb m n then n else m
math_max n (negsuc m) = n

-- `Math.min(a, b)` and `Math.max(a, b)` for naturals
abbrev pub nat_min : ℕ → ℕ → ℕ
nat_min a b = if leb a b then a else b

abbrev pub nat_max : ℕ → ℕ → ℕ
nat_max a b = if leb a b then b else a

abbrev is_digit : ℕ → Bool
is_digit c = leb b'0' c && leb c b'9'

-- The value of the leading digits, or NaN if there is none.
digits_value : Option ℕ → String → Option ℕ
digits_value acc String.[] = acc
digits_value acc (String.◌∷◌ c s) =
    let more = digits_value (some (or_default acc 0 * 10 + (code c - b'0'))) s in
    if is_digit (code c) then more else acc

abbrev negate : ℕ → ℤ
negate zero = pos zero
negate (suc n) = negsuc n

abbrev as_pos : Option ℕ → Option ℤ
as_pos none = none
as_pos (some n) = some (pos n)

abbrev as_neg : Option ℕ → Option ℤ
as_neg none = none
as_neg (some n) = some (negate n)

signed : String → Option ℤ
unfolding digits_value
signed String.[] = none
signed (String.◌∷◌ c s) =
    if nat_eq (code c) b'-'
    then as_neg (digits_value none s)
    else if nat_eq (code c) b'+'
    then as_pos (digits_value none s)
    else as_pos (digits_value none (String.◌∷◌ c s))

unfoldable pub parse_int : String → Option ℤ
unfolding signed trim_start
parse_int s = signed (trim_start s)

parse_int_test :
    (parse_int " 12px" ≡ some (pos 12))
    × (parse_int "-3" ≡ some (negsuc 2))
    × (parse_int "abc" ≡ none)
unfolding parse_int
parse_int_test = (refl, refl, refl)
