-- ===== src/Js/Text.antt =====
-- JavaScript strings: `trim`, `toLowerCase`, `split` on a character, and the decimal form of a
-- number in a template. `toLowerCase` is modelled on the letters A to Z; others stay as they are.
use nestjs_saas.Prelude.{
  true, false, ℕ, zero, suc, ◌/◌, ◌%◌, String, Bool, ◌&&◌, ◌||◌, List, [], ◌∷◌, ltb, leb, nat_eq,
  if◌then◌else◌, ◌≡◌, refl, ◌==◌,
}
use Prim.Native.Char.{Char, code}
use Prim.Native.String.{◌++◌ as str_append}

-- White space and line terminators, as `String.prototype.trim` knows them.
abbrev pub is_space : ℕ → Bool
is_space c =
    (leb 9 c && leb c 13)
    || nat_eq c 32
    || nat_eq c 160
    || nat_eq c 0x1680
    || (leb 0x2000 c && leb c 0x200a)
    || nat_eq c 0x2028
    || nat_eq c 0x2029
    || nat_eq c 0x202f
    || nat_eq c 0x205f
    || nat_eq c 0x3000
    || nat_eq c 0xfeff

unfoldable pub trim_start : String → String
trim_start String.[] = ""
trim_start (String.◌∷◌ c s) =
    let rest = trim_start s in if is_space (code c) then rest else String.◌∷◌ c s

pub trim_end : String → String
trim_end String.[] = ""
trim_end (String.◌∷◌ c s) =
    let rest = trim_end s in if (rest == "") && is_space (code c) then "" else String.◌∷◌ c rest

unfoldable pub trim : String → String
unfolding trim_start trim_end
trim s = trim_end (trim_start s)

-- The letter of the second alphabet that stands where `c` stands in the first.
translate : String → String → Char → Char
translate (String.◌∷◌ u us) (String.◌∷◌ l ls) c =
    let other = translate us ls c in if nat_eq (code u) (code c) then l else other
translate _ _ c = c

abbrev lower_char : Char → Char
lower_char = translate "ABCDEFGHIJKLMNOPQRSTUVWXYZ" "abcdefghijklmnopqrstuvwxyz"

unfoldable pub to_lower_case : String → String
unfolding translate
to_lower_case String.[] = ""
to_lower_case (String.◌∷◌ c s) = String.◌∷◌ (lower_char c) (to_lower_case s)

abbrev upper_char : Char → Char
upper_char = translate "abcdefghijklmnopqrstuvwxyz" "ABCDEFGHIJKLMNOPQRSTUVWXYZ"

unfoldable pub to_upper_case : String → String
unfolding translate
to_upper_case String.[] = ""
to_upper_case (String.◌∷◌ c s) = String.◌∷◌ (upper_char c) (to_upper_case s)

-- `s.startsWith(p)`
unfoldable pub starts_with : String → String → Bool
starts_with String.[] s = true
starts_with (String.◌∷◌ c p) String.[] = false
starts_with (String.◌∷◌ c p) (String.◌∷◌ d s) = nat_eq (code c) (code d) && starts_with p s

-- `s.includes(p)`
unfoldable pub includes : String → String → Bool
unfolding starts_with
includes p String.[] = p == ""
includes p (String.◌∷◌ c s) = starts_with p (String.◌∷◌ c s) || includes p s

-- `s.split(ch)`, the part before the first `ch` and the parts that follow.
split_parts : ℕ → String → String × List String
split_parts ch String.[] = ("", [])
split_parts ch (String.◌∷◌ c s) =
    let (part, parts) = split_parts ch s in
    if nat_eq (code c) ch then ("", part ∷ parts) else (String.◌∷◌ c part, parts)

unfoldable pub split : ℕ → String → List String
unfolding split_parts
split ch s = let (part, parts) = split_parts ch s in part ∷ parts

-- `s.replace(/ch/g, '')`
unfoldable pub without : ℕ → String → String
without ch String.[] = ""
without ch (String.◌∷◌ c s) =
    let rest = without ch s in if nat_eq (code c) ch then rest else String.◌∷◌ c rest

-- `s.replace(/\s+/g, ' ')`
unfoldable pub collapse_spaces : String → String
collapse_spaces String.[] = ""
collapse_spaces (String.◌∷◌ c String.[]) = if is_space (code c) then " " else String.◌∷◌ c ""
collapse_spaces (String.◌∷◌ c (String.◌∷◌ d s)) =
    let rest = collapse_spaces (String.◌∷◌ d s) in
    if is_space (code c) && is_space (code d)
    then rest
    else if is_space (code c)
    then str_append " " rest
    else String.◌∷◌ c rest

-- The number of UTF-16 units, on texts of the basic plane.
unfoldable pub str_length : String → ℕ
str_length String.[] = 0
str_length (String.◌∷◌ c s) = suc (str_length s)

-- `s.slice(0, n)`, on texts of the basic plane.
unfoldable pub slice_start : ℕ → String → String
slice_start zero s = ""
slice_start (suc n) String.[] = ""
slice_start (suc n) (String.◌∷◌ c s) = String.◌∷◌ c (slice_start n s)

digit : String → ℕ → String
digit String.[] n = ""
digit (String.◌∷◌ c s) zero = String.◌∷◌ c String.[]
digit (String.◌∷◌ c s) (suc n) = digit s n

decimal_from : ℕ → ℕ → String → String
decimal_from zero n acc = acc
decimal_from (suc fuel) n acc =
    let last = str_append (digit "0123456789" (n % 10)) acc in
    let longer = decimal_from fuel (n / 10) last in if ltb n 10 then last else longer

-- `${n}` for a natural number; `n` is below `10 ^ (n + 1)`, so the fuel suffices.
unfoldable pub decimal : ℕ → String
unfolding decimal_from digit
decimal n = decimal_from (suc n) n ""

collapse_test : collapse_spaces "a \t b" ≡ "a b"
unfolding collapse_spaces
collapse_test = refl

trim_test : trim " a b\n" ≡ "a b"
unfolding trim
trim_test = refl

lower_test : to_lower_case "AbZ@1" ≡ "abz@1"
unfolding to_lower_case
lower_test = refl

split_test : split b'@' "a@b@" ≡ "a" ∷ "b" ∷ "" ∷ []
unfolding split
split_test = refl

decimal_test : decimal 1203 ≡ "1203"
unfolding decimal
decimal_test = refl
