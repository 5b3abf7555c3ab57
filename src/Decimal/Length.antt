-- ===== src/Decimal/Length.antt =====
-- How long the decimal text of a number is.
use Prim.Native.String.{count}
use esppdv.Base.{
  ℕ, zero, suc, ◌+◌, ◌/◌, ◌%◌, ◌^◌, ◌<◌, ◌≤◌, String, ◌≡◌, arith, ◌==◌, Bool-cases, inl, inr,
}
use esppdv.Text.{hex_digit}
use esppdv.Decimal.{digits, format_nat}
use native.Mathlib.Nat.{pow-suc}
use text.Mathlib.TextLemmas.{length-cons}

digits-length : (f n k : ℕ) (out : String) → n < 10 ^ k → count (digits f n out) ≤ k + count out
unfolding digits
digits-length zero n k out h = omega arith
digits-length (suc f) n zero out h = let e : n ≡ 0 = omega arith in rw e (omega arith)
digits-length (suc f) n (suc k) out h = elim (Bool-cases (n == 0)) [
  | inl done ↦ rw done (omega arith)
  | inr more ↦ rw more (
      omega (
        arith,
        length-cons (hex_digit (n % 10)) out,
        digits-length f (n / 10) k (String.◌∷◌ (hex_digit (n % 10)) out)
            (omega (arith, pow-suc 10 k)),
      ))
]

-- A number below 10 ^ k has at most k digits.
pub format_nat-length : (n k : ℕ) → 0 < k → n < 10 ^ k → count (format_nat n) ≤ k
unfolding format_nat
format_nat-length n k p h = elim (Bool-cases (n == 0)) [
  | inl e ↦ rw e (omega (arith, length-cons "0" ""))
  | inr e ↦ rw e (omega (arith, digits-length (suc n) n k "" h))
]
