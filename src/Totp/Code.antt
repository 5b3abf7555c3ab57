-- ===== src/Totp/Code.antt =====
-- When totp cannot panic, and the text of a code.
use esppdv.Base.{
  ℕ, zero, suc, ◌+◌, ◌-◌, ◌*◌, ◌/◌, ◌%◌, ◌^◌, ◌<◌, ◌≤◌, ℤ, pos, String, ◌≡◌, ◌≢◌, refl, arith, ◌==◌,
  Bool, true, false, if◌then◌else◌, Bool-cases, inl, inr, not, [], ◌∷◌, Option, none, some, length,
  drop,
}
use esppdv.Text.{Bytes, to_upper}
use esppdv.World.Rows.{Time}
use esppdv.Totp.{
  TotpLib, panic, second, to_uint64, be_bytes, last, be_uint32, truncate, reduce, modulus, keyed,
  totp,
}
use native.Mathlib.Nat.{pow-suc}

last-some : (x : ℕ) (xs : Bytes) → (b : ℕ) × (last (x ∷ xs) ≡ some b)
unfolding last
last-some x [] = (x, refl)
last-some x (y ∷ ys) = last-some y ys

be_uint32-some : (xs : Bytes) → 4 ≤ length xs → (n : ℕ) × (be_uint32 xs ≡ some n)
unfolding be_uint32
be_uint32-some [] h = absurd (omega arith)
be_uint32-some (a ∷ []) h = absurd (omega arith)
be_uint32-some (a ∷ b ∷ []) h = absurd (omega arith)
be_uint32-some (a ∷ b ∷ c ∷ []) h = absurd (omega arith)
be_uint32-some (a ∷ b ∷ c ∷ d ∷ xs) h = (a * 2 ^ 24 + b * 2 ^ 16 + c * 2 ^ 8 + d, refl)

length-drop : (n : ℕ) (xs : Bytes) → length (drop n xs) ≡ length xs - n
length-drop zero xs = omega arith
length-drop (suc n) [] = omega arith
length-drop (suc n) (x ∷ xs) = omega (arith, length-drop n xs)

-- The offset is at most 15, so the four bytes of a 20-byte sum are there.
truncate-some : (sum : Bytes) → length sum ≡ 20 → (n : ℕ) × (truncate sum ≡ some n) × (n < 2 ^ 31)
unfolding truncate
truncate-some [] h = absurd (omega arith)
truncate-some (x ∷ xs) h =
    let (b, e) = last-some x xs in
    let (n, k) =
      be_uint32-some (drop (b % 16) (x ∷ xs)) (omega (arith, length-drop (b % 16) (x ∷ xs))) in
    (n % 2 ^ 31, rw (e, k), omega arith)

passes : (ℕ → Bool) → ℕ → Bool
passes p zero = true
passes p (suc n) = let before = passes p n in if p n then before else false

passes-holds : (p : ℕ → Bool) (n : ℕ) → passes p n ≡ true → (x : ℕ) → x < n → p x ≡ true
unfolding passes
passes-holds p zero h = λ x small. absurd (omega arith)
passes-holds p (suc n) h = λ x small. elim (Bool-cases (p n)) [
  | inr e ↦ cc (rw e at h)
  | inl e ↦ elim (Bool-cases (x == n)) [
    | inl k ↦ let here : x ≡ n = ground arith in rw here e
    | inr k ↦ passes-holds p n (rw e at h) x (ground arith)
  ]
]

moduli : passes (λ d. not (modulus d == 0)) 32 ≡ true
unfolding passes modulus
moduli = refl

powers : passes (λ d. modulus d == 10 ^ d) 10 ≡ true
unfolding passes modulus
powers = refl

pub modulus-eq-pow : (d : ℕ) → d < 10 → modulus d ≡ 10 ^ d
modulus-eq-pow d h = ground (arith, passes-holds (λ d. modulus d == 10 ^ d) 10 powers d h)

modulus-ne-zero : (d : ℕ) → d < 32 → (modulus d == 0) ≡ false
modulus-ne-zero d h = ground (arith, passes-holds (λ d. not (modulus d == 0)) 32 moduli d h)

-- HMAC-SHA1 gives 20 bytes.
abbrev pub Sums : TotpLib → Type 0
Sums lib = (key msg : Bytes) → length (lib.hmac_sha1 key msg) ≡ 20

reduce_safe : (d : ℕ) (o : Option ℕ) (n : ℕ) → d < 32 → o ≡ some n → reduce d o ≢ panic
reduce_safe d none n h e = cc
reduce_safe d (some m) n h e = ground (arith, modulus-ne-zero d h)

counted_safe :
    (lib : TotpLib) (key : Bytes) (d : ℕ) (t : ℤ)
    → Sums lib
    → d < 32
    → reduce d (truncate (lib.hmac_sha1 key (be_bytes 8 (to_uint64 t)))) ≢ panic
counted_safe lib key d t sums h =
    let (n, e, _) = truncate-some _ (sums key (be_bytes 8 (to_uint64 t))) in reduce_safe d _ n h e

whole_seconds-pos : (n : ℕ) → second ≤ n → (b : ℕ) × (n / second ≡ suc b)
whole_seconds-pos n h = (n / second - 1, omega arith)

-- With fewer than 32 digits and a period of a second or more, totp does not panic.
pub totp-ne-panic :
    (lib : TotpLib) (secret : String) (t : Time) (digits period : ℕ)
    → Sums lib
    → digits < 32
    → second ≤ period
    → totp lib secret t digits (pos period) ≢ panic
unfolding totp
totp-ne-panic lib secret t digits period sums few long = safe (lib.base32_decode (to_upper secret))
  where
    safe : (o : Option Bytes) → keyed lib o t digits (pos period) ≢ panic
    safe none = cc
    safe (some key) =
        let (b, e) = whole_seconds-pos period long in rw e (counted_safe lib key digits _ sums few)

pub pow-pos : (d : ℕ) → 0 < 10 ^ d
pow-pos zero = omega arith
pow-pos (suc d) = omega (arith, pow-suc 10 d, pow-pos d)
