-- ===== src/Totp/Digits.antt =====
-- The length of a code.
use Prim.Native.String.{count}
use esppdv.Base.{
  ℕ, zero, suc, ◌+◌, ◌-◌, ◌%◌, ◌^◌, ◌<◌, String, ◌≡◌, arith, ◌==◌, Bool-cases, inl, inr, Option,
  none, some, ℤ,
}
use esppdv.Text.{Bytes, to_upper}
use esppdv.Decimal.{format_nat}
use esppdv.Decimal.Length.{format_nat-length}
use esppdv.World.Rows.{Time, Duration}
use esppdv.Totp.{
  TotpLib, otp, pad, modulus, reduce, format_code, totp, counted, keyed, div_go, unix,
  whole_seconds,
}
use esppdv.Totp.Code.{modulus-eq-pow, pow-pos}
use text.Mathlib.TextLemmas.{length-cons}

count-pad : (k : ℕ) (s : String) → count (pad k s) ≡ k + count s
unfolding pad
count-pad zero s = omega arith
count-pad (suc k) s = omega (arith, length-cons "0" (pad k s), count-pad k s)

format_code-length : (d n : ℕ) → 0 < d → n < 10 ^ d → count (format_code d n) ≡ d
unfolding format_code
format_code-length d n p h =
    omega (arith, count-pad (d - count (format_nat n)) (format_nat n), format_nat-length n d p h)

reduce-length :
    (d : ℕ) (o : Option ℕ) {s : String} → 0 < d → d < 10 → reduce d o ≡ otp s → count s ≡ d
reduce-length d none p few h = cc
reduce-length d (some n) {s} p few h = elim (Bool-cases (modulus d == 0)) [
  | inl z ↦ cc (rw z at h)
  | inr nz ↦
      let e : format_code d (n % modulus d) ≡ s = cc (rw nz at h) in
      rw (← e) (
        format_code-length d (n % modulus d) p
          (rw (modulus-eq-pow d few) (omega (arith, pow-pos d))))
]

counted-length :
    (lib : TotpLib) (key : Bytes) (d : ℕ) (o : Option ℤ) {s : String}
    → 0 < d
    → d < 10
    → counted lib key d o ≡ otp s
    → count s ≡ d
counted-length lib key d none p few h = cc
counted-length lib key d (some t) p few h = reduce-length d _ p few h

keyed-length :
    (lib : TotpLib) (o : Option Bytes) (t : Time) (d : ℕ) (period : Duration) {s : String}
    → 0 < d
    → d < 10
    → keyed lib o t d period ≡ otp s
    → count s ≡ d
keyed-length lib none t d period p few h = cc
keyed-length lib (some key) t d period p few h =
    counted-length lib key d (div_go (unix t) (whole_seconds period)) p few h

-- Where one to nine digits are asked for, a code has that many characters, leading zeros kept.
pub totp-length :
    (lib : TotpLib) (secret : String) (t : Time) (digits : ℕ) (period : Duration) {s : String}
    → 0 < digits
    → digits < 10
    → totp lib secret t digits period ≡ otp s
    → count s ≡ digits
unfolding totp
totp-length lib secret t digits period p few h =
    keyed-length lib (lib.base32_decode (to_upper secret)) t digits period p few h
