-- ===== src/Decimal.antt =====
-- strconv.ParseInt, strconv.Atoi and strconv.FormatInt in base 10, for 64-bit integers.
pub mod Length
use Prim.Native.Char.{code}
use esppdv.Base.{
  ℕ, zero, suc, ◌+◌, ◌-◌, ◌*◌, ◌/◌, ◌%◌, ◌^◌, ℤ, pos, negsuc, String, ◌||◌, Option, none, some, ltb,
  leb, ◌==◌, if◌then◌else◌,
}
use esppdv.Text.{hex_digit}

scan : String → ℕ → Option ℕ
scan String.[] n = some n
scan (String.◌∷◌ c s) n =
    let rest = scan s (n * 10 + (code c - 48)) in
    if ltb (code c) 48 || ltb 57 (code c) then none else rest

-- One digit or more.
unsigned : String → Option ℕ
unfolding scan
unsigned String.[] = none
unsigned (String.◌∷◌ c s) = scan (String.◌∷◌ c s) 0

negative : ℕ → ℤ
negative zero = pos 0
negative (suc n) = negsuc n

positive_in_range : Option ℕ → Option ℤ
positive_in_range none = none
positive_in_range (some n) = if ltb n (2 ^ 63) then some (pos n) else none

negative_in_range : Option ℕ → Option ℤ
unfolding negative
negative_in_range none = none
negative_in_range (some n) = if leb n (2 ^ 63) then some (negative n) else none

-- `none` is the error of a bad syntax or of a value out of range.
unfoldable pub parse_int : String → Option ℤ
unfolding unsigned positive_in_range negative_in_range
parse_int String.[] = none
parse_int (String.◌∷◌ c s) =
    if code c == 45
    then negative_in_range (unsigned s)
    else if code c == 43
    then positive_in_range (unsigned s)
    else positive_in_range (unsigned (String.◌∷◌ c s))

positive_clamped : Option ℕ → ℤ
positive_clamped none = pos 0
positive_clamped (some n) = if ltb n (2 ^ 63) then pos n else pos (2 ^ 63 - 1)

negative_clamped : Option ℕ → ℤ
unfolding negative
negative_clamped none = pos 0
negative_clamped (some n) = if leb n (2 ^ 63) then negative n else negsuc (2 ^ 63 - 1)

-- What the functions return beside their error too: 0 for a bad syntax, the nearest 64-bit integer
-- for a value out of range.
unfoldable pub clamped_int : String → ℤ
unfolding unsigned positive_clamped negative_clamped
clamped_int String.[] = pos 0
clamped_int (String.◌∷◌ c s) =
    if code c == 45
    then negative_clamped (unsigned s)
    else if code c == 43
    then positive_clamped (unsigned s)
    else positive_clamped (unsigned (String.◌∷◌ c s))

-- The digits of `n` in front of `out`; `n + 1` rounds are enough, since each divides by ten.
unfoldable pub digits : ℕ → ℕ → String → String
digits zero n out = out
digits (suc f) n out =
    let more = digits f (n / 10) (String.◌∷◌ (hex_digit (n % 10)) out) in
    if n == 0 then out else more

unfoldable pub format_nat : ℕ → String
format_nat n = if n == 0 then "0" else digits (suc n) n ""

unfoldable pub format_int : ℤ → String
unfolding format_nat
format_int (pos n) = format_nat n
format_int (negsuc n) = String.◌∷◌ "-" (format_nat (suc n))
