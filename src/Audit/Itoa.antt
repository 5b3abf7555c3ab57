-- ===== src/Audit/Itoa.antt =====
-- itoa of services/audit-service/internal/repo/repo.go.
use esppdv.Base.{
  ℕ, zero, suc, ◌/◌, ◌%◌, ◌^◌, ◌<◌, ℤ, pos, negsuc, ltb_ℤ, true, String, Option, none, some, ◌≡◌,
  refl, ◌==◌, if◌then◌else◌, arith, Bool-cases, inl, inr,
}
use esppdv.Text.{hex_digit}
use esppdv.Decimal.{digits, format_nat}
use native.Mathlib.Nat.{pow-suc}

-- `for n > 0 { … }` with `room` bytes of the buffer in front of `out`; `none` is the panic of a
-- write in front of the buffer.
unfoldable pub itoa_from : ℕ → ℕ → String → Option String
itoa_from zero n out = if n == 0 then some out else none
itoa_from (suc room) n out =
    let more = itoa_from room (n / 10) (String.◌∷◌ (hex_digit (n % 10)) out) in
    if n == 0 then some out else more

-- The loop is not entered for a negative number.
unfoldable pub itoa : ℤ → Option String
itoa (negsuc n) = some ""
itoa (pos n) = if n == 0 then some "0" else itoa_from 20 n ""

itoa_from-digits :
    (room f n : ℕ) (out : String)
    → n < 10 ^ room
    → n < f
    → itoa_from room n out ≡ some (digits f n out)
unfolding itoa_from digits
itoa_from-digits room zero n out h k = absurd (omega (arith, k))
itoa_from-digits zero (suc f) n out h k = let e : n ≡ 0 = omega (arith, h) in rw e refl
itoa_from-digits (suc room) (suc f) n out h k = elim (Bool-cases (n == 0)) [
  | inl e ↦ rw e refl
  | inr e ↦ rw e (
      itoa_from-digits room f (n / 10) (String.◌∷◌ (hex_digit (n % 10)) out)
        (omega (arith, h, pow-suc 10 room)) (ground (arith, e, k)))
]

abbrev pub text_of : ℤ → String
text_of (pos n) = format_nat n
text_of (negsuc n) = ""

-- For every number below 10^20, which every 64-bit integer is, itoa ends without a panic: in the
-- decimal text of a number that is not negative, and in the empty text for a negative one.
pub itoa_lem : (i : ℤ) → ltb_ℤ i (pos (10 ^ 20)) ≡ true → itoa i ≡ some (text_of i)
unfolding itoa format_nat
itoa_lem (negsuc n) h = refl
itoa_lem (pos n) h = elim (Bool-cases (n == 0)) [
  | inl e ↦ rw e refl
  | inr e ↦ rw e (itoa_from-digits 20 (suc n) n "" (ground (arith, h)) (omega arith))
]
