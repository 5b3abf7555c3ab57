-- ===== src/Totp/Tests.antt =====
-- Codes under a toy HMAC whose sum is the same for every message: its code is 909060.
use esppdv.Base.{refl, ◌≡◌, ◌≢◌, ◌↔◌, some, none, pos, arith, true}
use Prim.Native.String.{count}
use esppdv.Decimal.{digits}
use esppdv.Text.{to_upper, hex_digit}
use esppdv.Totp.{totp, truncate, modulus, pad, format_code, verify_totp, otp, panic}
use esppdv.Totp.Code.{totp-ne-panic}
use esppdv.Totp.Digits.{totp-length}
use esppdv.Totp.Verify.{verify_totp_iff, entered, Hits}
use esppdv.Sample.Data.{toy_totp, start}

totp_runs : totp toy_totp "A" start 6 (pos 30000000000) ≡ otp "909060"
unfolding totp to_upper truncate modulus pad format_code digits hex_digit
totp_runs = refl

totp-ne-panic_example : totp toy_totp "A" start 6 (pos 30000000000) ≢ panic
totp-ne-panic_example =
    totp-ne-panic toy_totp "A" start 6 30000000000 (λ key msg. refl) (omega arith) (omega arith)

totp-length_example : count "909060" ≡ 6
totp-length_example =
    totp-length toy_totp "A" start 6 (pos 30000000000) (omega arith) (omega arith) totp_runs

verify_totp_iff_example :
    (verify_totp toy_totp "A" "909 060" start 6 (pos 30000000000) (pos 1) ≢ none)
    × ((verify_totp toy_totp "A" "909 060" start 6 (pos 30000000000) (pos 1) ≡ some true) ↔ (
        (entered "909 060" ≢ "")
        × (entered "A" ≢ "")
        × Hits toy_totp "A" "909 060" start 6 30000000000 1))
verify_totp_iff_example =
    verify_totp_iff toy_totp "A" "909 060" start 6 30000000000 1 (λ key msg. refl) (omega arith)
      (omega arith) (omega arith) (omega arith)
