-- ===== src/Totp.antt =====
-- shared/mfax/totp.go: one-time codes after RFC 6238.
pub mod Code
pub mod Window
pub mod Verify
pub mod Digits
pub mod Tests
use Prim.Native.Char.{code}
use Prim.Native.String.{count}
use esppdv.Base.{
  ℕ, zero, suc, ◌+◌, ◌-◌, ◌*◌, ◌/◌, ◌%◌, ◌^◌, ℤ, pos, negsuc, ◌+ℤ◌, ◌*ℤ◌, ◌-ℤ◌, ltb_ℤ, leb_ℤ,
  String, Bool, true, false, ◌&&◌, List, [], ◌∷◌, map, Option, none, some, ltb, ◌==◌, str_eq,
  length, drop, if◌then◌else◌,
}
use esppdv.Text.{Bytes, trim_space, remove_spaces, to_upper}
use esppdv.Decimal.{format_nat}
use esppdv.World.Rows.{Time, Duration}

-- base32.StdEncoding without padding, and HMAC-SHA1 of a key and a message.
pub record TotpLib : Type 0 where
  pub base32_decode : String → Option Bytes
  pub hmac_sha1 : Bytes → Bytes → Bytes

abbrev pub second : ℕ
second = 1000000000

-- Go's integer division, towards zero. `none` is the panic of a division by zero.
abbrev pub quotient : ℤ → ℕ → Bool → ℤ
quotient (pos a) b true = pos (a / b)
quotient (pos a) b false = pos 0 -ℤ pos (a / b)
quotient (negsuc a) b true = pos 0 -ℤ pos (suc a / b)
quotient (negsuc a) b false = pos (suc a / b)

abbrev pub div_go : ℤ → ℤ → Option ℤ
div_go a (pos zero) = none
div_go a (pos (suc b)) = some (quotient a (suc b) true)
div_go a (negsuc b) = some (quotient a (suc b) false)

-- t.Unix(): whole seconds, rounded down.
abbrev pub unix : Time → ℤ
unix (pos n) = pos (n / second)
unix (negsuc n) = negsuc (n / second)

-- int64(d.Seconds())
abbrev pub whole_seconds : Duration → ℤ
whole_seconds d = quotient d second true

-- The conversion int64 → uint64.
abbrev pub to_uint64 : ℤ → ℕ
to_uint64 (pos n) = n % 2 ^ 64
to_uint64 (negsuc n) = 2 ^ 64 - 1 - n % 2 ^ 64

-- The value of a computation in int64.
abbrev pub int64 : ℤ → ℤ
int64 (pos n) = let m = n % 2 ^ 64 in if ltb m (2 ^ 63) then pos m else negsuc (2 ^ 64 - m - 1)
int64 (negsuc n) = let m = n % 2 ^ 64 in if ltb m (2 ^ 63) then negsuc m else pos (2 ^ 64 - m - 1)

-- binary.BigEndian.PutUint64
pub be_bytes : ℕ → ℕ → Bytes
be_bytes zero n = []
be_bytes (suc k) n = (n / 256 ^ k) % 256 ∷ be_bytes k n

-- binary.BigEndian.Uint32(sum[offset : offset+4]); `none` is the panic of a slice out of range.
be_uint32 : Bytes → Option ℕ
be_uint32 (a ∷ b ∷ c ∷ d ∷ _) = some (a * 2 ^ 24 + b * 2 ^ 16 + c * 2 ^ 8 + d)
be_uint32 _ = none

last : Bytes → Option ℕ
last [] = none
last (x ∷ []) = some x
last (x ∷ y ∷ xs) = last (y ∷ xs)

-- Dynamic truncation: the 31 bits at the offset that the last byte's low half names. The masks
-- `& 0x0f` and `& 0x7fffffff` are remainders.
abbrev masked : Option ℕ → Option ℕ
masked none = none
masked (some bin) = some (bin % 2 ^ 31)

abbrev at_offset : Option ℕ → Bytes → Option ℕ
at_offset none sum = none
at_offset (some b) sum = masked (be_uint32 (drop (b % 16) sum))

unfoldable pub truncate : Bytes → Option ℕ
unfolding last be_uint32
truncate sum = at_offset (last sum) sum

-- `mod *= 10` in uint32, once for each digit.
unfoldable pub modulus : ℕ → ℕ
modulus zero = 1
modulus (suc digits) = (modulus digits * 10) % 2 ^ 32

-- fmt.Sprintf("%0*d", digits, n)
unfoldable pub pad : ℕ → String → String
pad zero s = s
pad (suc k) s = String.◌∷◌ "0" (pad k s)

unfoldable pub format_code : ℕ → ℕ → String
unfolding format_nat
format_code digits n = let s = format_nat n in pad (digits - count s) s

-- The outcome of totp: a code, an error, or a run-time panic.
pub data Otp : Type 0 where
  otp : String → Otp
  bad : Otp
  panic : Otp

abbrev pub reduce : ℕ → Option ℕ → Otp
reduce digits none = panic
reduce digits (some bin) =
    if modulus digits == 0 then panic else otp (format_code digits (bin % modulus digits))

module _ (lib : TotpLib) where
  abbrev pub counted : Bytes → ℕ → Option ℤ → Otp
  counted key digits none = panic
  counted key digits (some t) =
      reduce digits (truncate (lib.hmac_sha1 key (be_bytes 8 (to_uint64 t))))

  abbrev pub keyed : Option Bytes → Time → ℕ → Duration → Otp
  keyed none t digits period = bad
  keyed (some key) t digits period = counted key digits (div_go (unix t) (whole_seconds period))

  unfoldable pub totp : String → Time → ℕ → Duration → Otp
  unfolding be_bytes
  totp secret t digits period = keyed (lib.base32_decode (to_upper secret)) t digits period

  -- One round of the loop of VerifyTOTP, over what the later rounds give.
  abbrev pub verify_round : Otp → String → Option Bool → Option Bool
  verify_round panic code rest = none
  verify_round bad code rest = rest
  verify_round (otp s) code rest = if str_eq s code then some true else rest

  -- The rounds i, i + 1, … of the loop, `rounds` of them.
  unfoldable pub verify_from : ℕ → ℤ → String → String → Time → ℕ → Duration → Option Bool
  verify_from zero i secret code now digits period = some false
  verify_from (suc rounds) i secret code now digits period =
      let rest = verify_from rounds (i +ℤ pos 1) secret code now digits period in
      verify_round (totp secret (now +ℤ int64 (i *ℤ period)) digits period) code rest

  -- VerifyTOTP. A digit count of zero or less is 6, and it is a natural number here.
  unfoldable pub verify_totp : String → String → Time → ℕ → Duration → ℤ → Option Bool
  verify_totp secret_base32 code now digits period window =
      let code = remove_spaces (trim_space code) in
      let secret = remove_spaces (trim_space secret_base32) in
      let digits = if digits == 0 then 6 else digits in
      let period = if leb_ℤ period (pos 0) then pos (30 * second) else period in
      let window = if ltb_ℤ window (pos 0) then pos 0 else window in
      let w = to_uint64 window in
      if str_eq code ""
      then some false
      else if str_eq secret ""
      then some false
      else verify_from (2 * w + 1) (pos 0 -ℤ window) secret code now digits period
