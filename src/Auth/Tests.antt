-- ===== src/Auth/Tests.antt =====
-- Runs of the auth service on sample data.
use esppdv.Base.{refl, ◌≡◌, some, none, pos, true}
use esppdv.Outcome.{http, Result, ok, err}
use esppdv.World.Rows.{Time}
use esppdv.Crypto.{decrypt_string}
use esppdv.Httpx.{AuthInfo, require_auth, auth_from_locals}
use esppdv.Jwt.{Claims}
use esppdv.Jwt.Validate.{parse_and_validate_iff}
use esppdv.Auth.Mfa.{mfa_verify}
use esppdv.Auth.Factor.{Proven, mfa_verify-Proven}
use esppdv.World.{World}
use esppdv.World.Sql.{reach, query, exec, rand_read}
use esppdv.Exec.{◌>>=◌, or_else}
use esppdv.Text.{hex_encode, hex_digit, to_upper, trim_space, remove_spaces}
use esppdv.Decimal.{digits}
use esppdv.Totp.{verify_totp, verify_from, totp, truncate, modulus, pad, format_code}
use esppdv.Jwt.{new_access_token, new_refresh_token, parse_and_validate, check_claims, aud_contains}
use esppdv.Auth.Repo.{
  get_user_by_username, get_user_by_id, insert_refresh_token, get_refresh_token,
  revoke_refresh_token, update_user, enable_mfa,
}
use esppdv.Auth.Handler.{
  login, LoginRequest, TokenResponse, new_token_id, new_tokens, ldap_login, check_mfa,
  code_is_valid,
}
use esppdv.Auth.Session.{refresh}
use esppdv.Auth.Login.{LoggedIn, login-LoggedIn, login_fails}
use esppdv.Auth.Refresh.{Refreshed, refresh-Refreshed, refresh-once}
use esppdv.Sample.Data.{sample_handler, sample_world, sample_locals}

abbrev good_login : LoginRequest
good_login = record { username = "siti"; password = "rahasia"; otp = "" }

abbrev good_reply : TokenResponse
good_reply = record {
  access_token = "0102030405060708090a0b0c0d0e0f10";
  refresh_token = "111213000102030405060708090a0b0c0d0e0f10111213000102030405060708";
  token_type = "Bearer";
  expires_in = pos 900;
}

abbrev after_login : World
after_login = (login sample_handler (some good_login) sample_world).1

login_runs :
    ◌≡◌ {A = Result TokenResponse × World}
      (login sample_handler (some good_login) sample_world)
      (ok good_reply, after_login)
unfolding login ◌>>=◌ or_else get_user_by_username query reach ldap_login check_mfa new_tokens
    new_token_id rand_read hex_encode hex_digit new_access_token new_refresh_token
    insert_refresh_token exec
login_runs = refl

login-LoggedIn_example : LoggedIn sample_handler good_login sample_world after_login good_reply
login-LoggedIn_example =
    login-LoggedIn sample_handler good_login sample_world after_login good_reply login_runs

abbrev after_refresh : World
after_refresh = (refresh sample_handler (some "refresh") sample_world).1

refresh_runs :
    ◌≡◌ {A = Result TokenResponse × World}
      (refresh sample_handler (some "refresh") sample_world)
      (ok good_reply, after_refresh)
unfolding refresh ◌>>=◌ or_else parse_and_validate check_claims aud_contains get_refresh_token
    get_user_by_id query reach new_tokens new_token_id rand_read hex_encode hex_digit
    new_access_token new_refresh_token insert_refresh_token revoke_refresh_token exec
refresh_runs = refl

refresh-Refreshed_example : Refreshed sample_handler "refresh" sample_world after_refresh good_reply
refresh-Refreshed_example =
    refresh-Refreshed sample_handler "refresh" sample_world after_refresh good_reply refresh_runs

steady :
    (t u : Time) (c d : Claims)
    → parse_and_validate sample_handler.jwt sample_handler.verifier t "refresh" ≡ ok c
    → parse_and_validate sample_handler.jwt sample_handler.verifier u "refresh" ≡ ok d
    → c ≡ d
steady t u c d p q = cc (
  ((parse_and_validate_iff sample_handler.jwt sample_handler.verifier t "refresh" c).0 p).0,
  ((parse_and_validate_iff sample_handler.jwt sample_handler.verifier u "refresh" d).0 q).0,
)

refresh-once_example :
    ¬ (refresh sample_handler (some "refresh") after_refresh ≡ (ok good_reply, sample_world))
refresh-once_example =
    refresh-once sample_handler "refresh" sample_world after_refresh after_refresh sample_world
      good_reply good_reply steady refresh_runs refl

no_body : (login sample_handler none sample_world).0 ≡ err (http 400 "invalid json")
unfolding login ◌>>=◌
no_body = refl

login_fails_example : (login sample_handler none sample_world).1.tables ≡ sample_world.tables
login_fails_example = login_fails sample_handler none sample_world (http 400 "invalid json") no_body

abbrev after_verify : World
after_verify = (mfa_verify sample_handler sample_locals (some "909060") sample_world).1

mfa_verify_runs :
    ◌≡◌ {A = Result (Unit {0}) × World}
      (mfa_verify sample_handler sample_locals (some "909060") sample_world)
      (ok tt, after_verify)
unfolding mfa_verify ◌>>=◌ or_else require_auth get_user_by_id query reach decrypt_string
    code_is_valid verify_totp verify_from trim_space remove_spaces totp to_upper truncate modulus
    pad format_code digits hex_digit enable_mfa exec
mfa_verify_runs = refl

mfa_verify-Proven_example :
    (a : AuthInfo) × (auth_from_locals sample_locals ≡ some a)
    × Proven sample_handler a.user_id "909060" sample_world
    × (after_verify.tables
        ≡ update_user a.user_id
            (λ u. record u { mfa_enabled = true; mfa_enrolled_at = some sample_world.now })
            sample_world.tables)
mfa_verify-Proven_example =
    mfa_verify-Proven sample_handler sample_locals "909060" sample_world after_verify
      mfa_verify_runs
