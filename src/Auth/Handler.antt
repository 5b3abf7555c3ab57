-- ===== src/Auth/Handler.antt =====
-- services/auth-service/internal/http/handler.go, every handler. A body is `none` if BodyParser
-- refuses it; `refresh_token` of Logout is "" in that case. Replies are the JSON values.
use esppdv.Base.{
  ℕ, ℤ, pos, ◌+ℤ◌, String, Bool, true, false, ◌&&◌, ◌||◌, [], ◌∷◌, Option, none, some, str_eq,
  if◌then◌else◌,
}
use esppdv.Text.{Bytes, hex_encode}
use esppdv.Outcome.{Error, http, no_rows, failure, Result, ok, err}
use esppdv.Exec.{pure, lift, gets, guard, raise_if, or_else, or_raise, ◌>>=◌, ◌>>◌}
use esppdv.World.{World}
use esppdv.World.Rows.{Time, Duration}
use esppdv.World.Sql.{M, rand_read}
use esppdv.Crypto.{Aead, decrypt_string}
use esppdv.Totp.{TotpLib, verify_totp, whole_seconds}
use esppdv.Jwt.{JwtLib, Signer, Verifier, new_access_token, new_refresh_token}
use esppdv.Auth.Ldap.{LdapConfig, LdapLib, is_enabled, authenticate}
use esppdv.Auth.Repo.{User, get_user_by_username, insert_refresh_token}

-- The handler's fields, and what it calls outside the repository: `base32_encode` is that of
-- encoding/base32 without padding, `compare_hash_and_password` that of bcrypt.
pub record Handler : Type 0 where
  pub jwt : JwtLib
  pub totp : TotpLib
  pub base32_encode : Bytes → String
  pub compare_hash_and_password : String → String → Bool
  pub ldap_lib : LdapLib
  pub ldap : Option LdapConfig
  pub signer : Signer
  pub verifier : Verifier
  pub gcm : Aead
  pub mfa_issuer : String
  pub access_ttl : Duration
  pub refresh_ttl : Duration

pub record LoginRequest : Type 0 where
  pub username : String
  pub password : String
  pub otp : String

pub record TokenResponse : Type 0 where
  pub access_token : String
  pub refresh_token : String
  pub token_type : String
  pub expires_in : ℤ

abbrev pub invalid_credentials : Error
invalid_credentials = http 401 "invalid credentials"

abbrev pub invalid_refresh : Error
invalid_refresh = http 401 "invalid refresh token"

abbrev pub refresh_revoked : Error
refresh_revoked = http 401 "refresh token revoked"

abbrev pub invalid_user : Error
invalid_user = http 401 "invalid user"

abbrev pub no_user : Error → Error
no_user no_rows = invalid_credentials
no_user e = e

-- The verdict of VerifyTOTP as the handlers use it; a panic ends the request.
abbrev pub verdict : Error → Option Bool → Result (Unit {0})
verdict e none = err (failure "panic")
verdict e (some false) = err e
verdict e (some true) = ok tt

-- newTokenID
unfoldable pub new_token_id : ℕ → M String
new_token_id bytes_len = do b ← rand_read bytes_len; pure (hex_encode b)

abbrev pub is_empty : Bytes → Bool
is_empty [] = true
is_empty (x ∷ xs) = false

module _ (h : Handler) where
  abbrev pub ldap_verdict : Bool → Result Bool → Result Bool
  ldap_verdict required (err e) = if required then err invalid_credentials else ok false
  ldap_verdict required (ok true) = ok true
  ldap_verdict required (ok false) = if required then err invalid_credentials else ok false

  -- Whether the directory has vouched for the password.
  unfoldable pub ldap_login : Option LdapConfig → String → String → Result Bool
  ldap_login none username password = ok false
  ldap_login (some cfg) username password =
      if is_enabled cfg && (str_eq cfg.mode "prefer" || str_eq cfg.mode "required")
      then ldap_verdict (str_eq cfg.mode "required") (authenticate h.ldap_lib cfg username password)
      else ok false

  -- The code is checked with six digits, 30 seconds and one step on either side.
  unfoldable pub code_is_valid : String → String → Time → Option Bool
  code_is_valid secret code now = verify_totp h.totp secret code now 6 (pos 30000000000) (pos 1)

  abbrev pub secret_checked : Result String → String → Time → Error → Result (Unit {0})
  secret_checked (err e) code now invalid = err e
  secret_checked (ok secret) code now invalid = verdict invalid (code_is_valid secret code now)

  abbrev pub otp_checked : Result String → String → Time → Result (Unit {0})
  otp_checked (err e) otp now = err e
  otp_checked (ok secret) otp now =
      if str_eq otp ""
      then err (http 401 "mfa_required")
      else verdict invalid_credentials (code_is_valid secret otp now)

  -- The second factor of Login.
  unfoldable pub check_mfa : User → String → Time → Result (Unit {0})
  check_mfa user otp now =
      if user.mfa_enabled
      then (if is_empty user.mfa_secret_enc
          then err invalid_credentials
          else otp_checked (decrypt_string h.gcm user.mfa_secret_enc "users:mfa_secret") otp now)
      else ok tt

  -- The pair of tokens of Login and Refresh, with the id of the new refresh token.
  unfoldable pub new_tokens : ℤ → String → M (String × String × String)
  new_tokens user_id role = do
    access_jti ← new_token_id 16
    refresh_jti ← new_token_id 32
    now ← gets (λ w. w.now)
    access ← lift (new_access_token h.jwt h.signer now user_id role access_jti)
    refresh ← lift (new_refresh_token h.jwt h.signer now user_id refresh_jti)
    pure (access, refresh, refresh_jti)

  abbrev pub token_response : String → String → TokenResponse
  token_response access refresh = record {
    access_token = access;
    refresh_token = refresh;
    token_type = "Bearer";
    expires_in = whole_seconds h.access_ttl;
  }

  abbrev pub expiry : World → Time
  expiry w = w.now +ℤ h.refresh_ttl

  unfoldable pub login : Option LoginRequest → M TokenResponse
  login body = do
    req ← or_raise body (http 400 "invalid json")
    raise_if (str_eq req.username "" || str_eq req.password "")
        (http 400 "username/password required")
    user ← or_else (get_user_by_username req.username) no_user
    guard user.is_active invalid_credentials
    authed ← lift (ldap_login h.ldap req.username req.password)
    guard (authed || h.compare_hash_and_password user.password_hash req.password)
        invalid_credentials
    now ← gets (λ w. w.now)
    lift (check_mfa user req.otp now)
    (access, refresh, refresh_jti) ← new_tokens user.id user.role
    expires ← gets expiry
    insert_refresh_token refresh_jti user.id expires
    pure (token_response access refresh)
