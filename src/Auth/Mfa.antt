-- ===== src/Auth/Mfa.antt =====
-- The handlers MFAEnroll, MFAVerify and MFADisable of
-- services/auth-service/internal/http/handler.go, and the enrolment part of shared/mfax/totp.go.
use esppdv.Base.{ℕ, ℤ, pos, leb_ℤ, String, Option, str_eq, ◌==◌, if◌then◌else◌}
use esppdv.Text.{to_upper}
use esppdv.Outcome.{Error, http, Result}
use esppdv.Exec.{pure, lift, gets, raise_if, or_else, or_raise, ◌>>=◌, ◌>>◌}
use esppdv.World.Rows.{Time, Duration}
use esppdv.World.Sql.{M, rand_read}
use esppdv.Crypto.{encrypt_string, decrypt_string}
use esppdv.Totp.{whole_seconds}
use esppdv.Httpx.{Locals, require_auth, unauthorized}
use esppdv.Auth.Repo.{User, get_user_by_id, set_mfa_secret, enable_mfa, disable_mfa}
use esppdv.Auth.Handler.{Handler, is_empty, secret_checked}

-- The parts of OTPAuthURL's result, before net/url escapes them.
pub record OtpAuth : Type 0 where
  pub issuer : String
  pub account : String
  pub secret : String
  pub digits : ℕ
  pub period : ℤ

-- OTPAuthURL
unfoldable pub otp_auth : String → String → String → ℕ → Duration → OtpAuth
otp_auth issuer account secret digits period = record {
  issuer = if str_eq issuer "" then "esppd" else issuer;
  account = account;
  secret = secret;
  digits = if digits == 0 then 6 else digits;
  period = whole_seconds (if leb_ℤ period (pos 0) then pos 30000000000 else period);
}

pub record MfaEnrollResponse : Type 0 where
  pub secret : String
  pub otp_auth : OtpAuth

abbrev pub aad : String
aad = "users:mfa_secret"

abbrev pub invalid_code : Error
invalid_code = http 401 "invalid code"

abbrev pub not_enrolled : Error
not_enrolled = http 400 "mfa not enrolled"

module _ (h : Handler) where
  -- GenerateSecretBase32, for a positive length.
  unfoldable pub generate_secret_base32 : ℕ → M String
  generate_secret_base32 bytes_len = do
    b ← rand_read (if bytes_len == 0 then 20 else bytes_len)
    pure (to_upper (h.base32_encode b))

  unfoldable pub mfa_enroll : Locals → M MfaEnrollResponse
  mfa_enroll locals = do
    a ← require_auth locals
    user ← or_else (get_user_by_id a.user_id) (λ _. unauthorized)
    raise_if user.mfa_enabled (http 400 "mfa already enabled")
    secret ← generate_secret_base32 20
    secret_enc ← encrypt_string h.gcm secret aad
    set_mfa_secret a.user_id secret_enc
    pure (record {
      secret = secret;
      otp_auth = otp_auth h.mfa_issuer user.username secret 6 (pos 30000000000);
    })

  -- The check of a code against the stored secret.
  abbrev pub prove_code : User → String → Time → Result (Unit {0})
  prove_code user code now =
      secret_checked h (decrypt_string h.gcm user.mfa_secret_enc aad) code now invalid_code

  unfoldable pub mfa_verify : Locals → Option String → M (Unit {0})
  mfa_verify locals body = do
    a ← require_auth locals
    code ← or_raise body (http 400 "invalid json")
    raise_if (str_eq code "") (http 400 "code required")
    user ← or_else (get_user_by_id a.user_id) (λ _. unauthorized)
    raise_if (is_empty user.mfa_secret_enc) not_enrolled
    now ← gets (λ w. w.now)
    lift (prove_code user code now)
    enable_mfa a.user_id

  -- What MFADisable does for a user with the second factor on.
  abbrev pub disable_enabled : ℤ → User → Option String → M (Unit {0})
  disable_enabled id user body = do
    code ← or_raise body (http 400 "invalid json")
    raise_if (str_eq code "") (http 400 "code required")
    raise_if (is_empty user.mfa_secret_enc) not_enrolled
    now ← gets (λ w. w.now)
    lift (prove_code user code now)
    disable_mfa id

  -- `body` is some "" for an empty body.
  unfoldable pub mfa_disable : Locals → Option String → M (Unit {0})
  mfa_disable locals body = do
    a ← require_auth locals
    user ← or_else (get_user_by_id a.user_id) (λ _. unauthorized)
    if user.mfa_enabled then disable_enabled a.user_id user body else pure tt
