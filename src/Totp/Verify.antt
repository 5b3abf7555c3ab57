-- ===== src/Totp/Verify.antt =====
-- What VerifyTOTP accepts.
use native.Mathlib.Nat.{mul-le-mul_right}
use esppdv.Base.{
  ℕ, suc, ◌-◌, negsuc, leb, Bool-cases, inl, inr, ◌+◌, ◌*◌, ◌%◌, ◌^◌, ◌<◌, ◌≤◌, pos, ◌-ℤ◌, ◌+ℤ◌,
  ◌*ℤ◌, ℤ, none, leb_ℤ, ltb_ℤ, String, Bool, true, false, Option, some, ◌≡◌, ◌≢◌, ◌↔◌, arith, ◌==◌,
  str_eq, eq_iff, if◌then◌else◌, refl,
}
use esppdv.Text.{trim_space, remove_spaces}
use esppdv.World.Rows.{Time}
use esppdv.Totp.{TotpLib, otp, int64, totp, second, verify_from, verify_totp}
use esppdv.Totp.Code.{Sums, totp-ne-panic}
use esppdv.Totp.Window.{Matches, Runs, verify_steps, verify_from-ne-none}

-- The entry of `s` with its blanks taken out.
abbrev pub entered : String → String
entered s = remove_spaces (trim_space s)

int64-pos : (n : ℕ) → n < 2 ^ 63 → int64 (pos n) ≡ pos n
int64-pos n h = ground arith

int64-negsuc : (n : ℕ) → n < 2 ^ 63 → int64 (negsuc n) ≡ negsuc n
int64-negsuc n h = ground arith

pos-times : (a p : ℕ) → pos a *ℤ pos p ≡ pos (a * p)
unfolding ◌*ℤ◌
pos-times a p = ground arith

negsuc-times : (a p : ℕ) → 0 < suc a * p → negsuc a *ℤ pos p ≡ negsuc (suc a * p - 1)
unfolding ◌*ℤ◌
negsuc-times a p h = ground arith

after : (k w : ℕ) → w ≤ k → pos k -ℤ pos w ≡ pos (k - w)
unfolding ◌-ℤ◌
after k w h = ground arith

before : (k w : ℕ) → k < w → pos k -ℤ pos w ≡ negsuc (w - k - 1)
unfolding ◌-ℤ◌
before k w h = ground arith

window_small : (window period : ℕ) → second ≤ period → window * period < 2 ^ 63 → window < 2 ^ 64
window_small window period long small =
    let least : window * 1 ≤ window * period = grind (arith, long) in omega (arith, small, least)

offset_small :
    (k window period : ℕ)
    → k < 2 * window + 1
    → 0 < period
    → window * period < 2 ^ 63
    → int64 ((pos k -ℤ pos window) *ℤ pos period) ≡ (pos k -ℤ pos window) *ℤ pos period
offset_small k window period below some_time small = elim (Bool-cases (leb window k)) [
  | inl e ↦
      let far : (k - window) * period ≤ window * period = grind (arith, e) in
      rw (after k window (ground arith), pos-times (k - window) period)
        (int64-pos ((k - window) * period) (omega (arith, far, small)))
  | inr e ↦
      let n = window - k - 1 in
      let far : suc n * period ≤ window * period = mul-le-mul_right period (ground (arith, e)) in
      let near : 0 < suc n * period = grind (arith, some_time) in
      rw (before k window (ground arith), negsuc-times n period near)
        (int64-negsuc (suc n * period - 1) (omega (arith, far, small)))
]

module _ (lib : TotpLib) (secret code : String) (now : Time) (digits period window : ℕ) where
  -- The code of the instant `i` periods from now is the one entered.
  abbrev pub HasCode : ℤ → Type 0
  HasCode i =
      totp lib (entered secret) (now +ℤ i *ℤ pos period) digits (pos period) ≡ otp (entered code)

  -- One of the time steps from `window` before now to `window` after it has the code.
  abbrev pub Hits : Type 0
  Hits = (k : ℕ) × (k < 2 * window + 1) × HasCode (pos k -ℤ pos window)

  abbrev Found : Type 0
  Found =
      (k : ℕ) × (k < 2 * window + 1)
      × Matches lib (entered secret) (entered code) now digits (pos period) (pos k -ℤ pos window)

  -- In int64 the steps are those of the integers.
  Found-Hits : 0 < period → window * period < 2 ^ 63 → Found ↔ Hits
  Found-Hits some_time small = (
    λ (k, below, hit). (k, below, rw (offset_small k window period below some_time small) at hit),
    λ (k, below, hit). (k, below, rw (offset_small k window period below some_time small) hit),
  )

  abbrev rounds : Option Bool
  rounds =
      verify_from lib (2 * window + 1) (pos 0 -ℤ pos window) (entered secret) (entered code) now
        digits (pos period)

  -- No default of VerifyTOTP applies.
  verify_plain :
      0 < digits
      → second ≤ period
      → window < 2 ^ 64
      → verify_totp lib secret code now digits (pos period) (pos window) ≡ (
          if str_eq (entered code) ""
          then some false
          else if str_eq (entered secret) ""
          then some false
          else rounds)
  unfolding verify_totp
  verify_plain d p w =
      let e : (digits == 0) ≡ false = ground arith in
      let f : leb_ℤ (pos period) (pos 0) ≡ false = ground arith in
      let g : ltb_ℤ (pos window) (pos 0) ≡ false = ground arith in
      let h : window % 2 ^ 64 ≡ window = omega arith in rw (e, f, g, h)

-- With 1 to 31 digits, a period of a second or more and a window that reaches less than 2 ^ 63
-- nanoseconds, VerifyTOTP never panics, and it accepts a code exactly when code and secret are not
-- blank and the code is that of one of the 2 * window + 1 time steps around now.
pub verify_totp_iff :
    (lib : TotpLib) (secret code : String) (now : Time) (digits period window : ℕ)
    → Sums lib
    → 0 < digits
    → digits < 32
    → second ≤ period
    → window * period < 2 ^ 63
    → (verify_totp lib secret code now digits (pos period) (pos window) ≢ none)
      × ((verify_totp lib secret code now digits (pos period) (pos window) ≡ some true) ↔ (
          (entered code ≢ "")
          × (entered secret ≢ "")
          × Hits lib secret code now digits period window))
verify_totp_iff lib secret code now digits period window sums some_digits few long small =
    rw
      (verify_plain lib secret code now digits period window some_digits long
        (window_small window period long small))
      (
        runs (str_eq (entered code) "") (str_eq (entered secret) ""),
        split (str_eq (entered code) "") (str_eq (entered secret) "") (eq_iff _ _) (eq_iff _ _),
      )
  where
    every : (j : ℤ) → Runs lib (entered secret) (entered code) now digits (pos period) j
    every j = totp-ne-panic lib _ _ digits period sums few long

    steps :
        (rounds lib secret code now digits period window ≡ some true)
        ↔ Found lib secret code now digits period window
    steps = verify_steps lib (entered secret) (entered code) now digits (pos period) window every

    runs :
        (b c : Bool)
        → (if b
            then some false
            else if c
            then some false
            else rounds lib secret code now digits period window)
          ≢ none
    runs true c = λ h. cc
    runs false true = λ h. cc
    runs false false =
        verify_from-ne-none lib (entered secret) (entered code) now digits (pos period) _ _ every

    found :
        Found lib secret code now digits period window
        ↔ Hits lib secret code now digits period window
    found = Found-Hits lib secret code now digits period window (omega (arith, long)) small

    split :
        (b c : Bool)
        → (b ≡ true) ↔ (entered code ≡ "")
        → (c ≡ true) ↔ (entered secret ≡ "")
        → ((if b
              then some false
              else if c
              then some false
              else rounds lib secret code now digits period window)
            ≡ some true)
          ↔ ((entered code ≢ "")
              × (entered secret ≢ "")
              × Hits lib secret code now digits period window)
    split true c hb hc = (λ h. cc, λ h. absurd (h.0 (hb.0 refl)))
    split false true hb hc = (λ h. cc, λ h. absurd (h.1 (hc.0 refl)))
    split false false hb hc =
        (λ h. (λ e. cc (hb.1 e), λ e. cc (hc.1 e), found.0 (steps.0 h)), λ h. steps.1 (found.1 h.2))
