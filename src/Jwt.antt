-- ===== src/Jwt.antt =====
-- shared/jwtx/jwt.go: the tokens that the services sign and accept.
pub mod Validate
pub mod RoundTrip
pub mod Tests
use esppdv.Base.{
  ℕ, ℤ, pos, ◌+ℤ◌, ◌-ℤ◌, ltb_ℤ, String, Bool, true, false, not, List, [], ◌∷◌, Option, none, some,
  str_eq, if◌then◌else◌,
}
use esppdv.Decimal.{format_int}
use esppdv.Outcome.{Error, failure, Result, ok, err}
use esppdv.Text.{Bytes}
use esppdv.World.Rows.{Time, Duration}

abbrev pub token_type_access : String
token_type_access = "access"

abbrev pub token_type_refresh : String
token_type_refresh = "refresh"

-- Claims, with the jwt.RegisteredClaims that it embeds.
pub record Claims : Type 0 where
  pub issuer : String
  pub subject : String
  pub audience : List String
  pub issued_at : Option Time
  pub not_before : Option Time
  pub expires_at : Option Time
  pub id : String
  pub user_id : ℤ
  pub role : String
  pub token_type : String

-- github.com/golang-jwt/jwt/v5. `parse` is Parser.ParseWithClaims for the method RS256 at an
-- instant: the claims, and token.Valid. Keys are in DER.
pub record JwtLib : Type 0 where
  pub sign : Bytes → Claims → Result String
  pub parse : Bytes → Time → String → Result (Claims × Bool)
  pub numeric_date : Time → Time

pub record Signer : Type 0 where
  pub priv : Bytes
  pub issuer : String
  pub audience : String
  pub access_ttl : Duration
  pub refresh_ttl : Duration

pub record Verifier : Type 0 where
  pub pub_key : Bytes
  pub issuer : String
  pub audience : String

abbrev pub five_seconds : Duration
five_seconds = pos 5000000000

module _ (lib : JwtLib) where
  abbrev pub access_claims : Signer → Time → ℤ → String → String → Claims
  access_claims s now user_id role token_id = record {
    issuer = s.issuer;
    subject = format_int user_id;
    audience = s.audience ∷ [];
    issued_at = some (lib.numeric_date now);
    not_before = some (lib.numeric_date (now -ℤ five_seconds));
    expires_at = some (lib.numeric_date (now +ℤ s.access_ttl));
    id = token_id;
    user_id = user_id;
    role = role;
    token_type = token_type_access;
  }

  -- NewAccessToken
  unfoldable pub new_access_token : Signer → Time → ℤ → String → String → Result String
  new_access_token s now user_id role token_id =
      lib.sign s.priv (access_claims s now user_id role token_id)

  abbrev pub refresh_claims : Signer → Time → ℤ → String → Claims
  refresh_claims s now user_id token_id = record {
    issuer = s.issuer;
    subject = format_int user_id;
    audience = s.audience ∷ [];
    issued_at = some (lib.numeric_date now);
    not_before = some (lib.numeric_date (now -ℤ five_seconds));
    expires_at = some (lib.numeric_date (now +ℤ s.refresh_ttl));
    id = token_id;
    user_id = user_id;
    role = "";
    token_type = token_type_refresh;
  }

  -- NewRefreshToken
  unfoldable pub new_refresh_token : Signer → Time → ℤ → String → Result String
  new_refresh_token s now user_id token_id = lib.sign s.priv (refresh_claims s now user_id token_id)

unfoldable pub aud_contains : List String → String → Bool
aud_contains [] want = false
aud_contains (a ∷ aud) want = if str_eq a want then true else aud_contains aud want

-- `claims.ExpiresAt == nil || time.Now().After(claims.ExpiresAt.Time)`
abbrev pub is_expired : Time → Option Time → Bool
is_expired now none = true
is_expired now (some e) = ltb_ℤ e now

-- `claims.NotBefore != nil && time.Now().Before(claims.NotBefore.Time)`
abbrev pub is_early : Time → Option Time → Bool
is_early now none = false
is_early now (some b) = ltb_ℤ now b

-- The manual checks of ParseAndValidate, on parsed claims.
unfoldable pub check_claims : Verifier → Time → Claims → Bool → Result Claims
check_claims v now c valid =
    if not valid
    then err (failure "invalid token")
    else if not (str_eq c.issuer v.issuer)
    then err (failure "invalid issuer")
    else if not (aud_contains c.audience v.audience)
    then err (failure "invalid audience")
    else if is_expired now c.expires_at
    then err (failure "token expired")
    else if is_early now c.not_before
    then err (failure "token not valid yet")
    else ok c

abbrev pub checked : Verifier → Time → Result (Claims × Bool) → Result Claims
checked v now (err e) = err e
checked v now (ok (c, valid)) = check_claims v now c valid

-- ParseAndValidate
unfoldable pub parse_and_validate : JwtLib → Verifier → Time → String → Result Claims
parse_and_validate lib v now token = checked v now (lib.parse v.pub_key now token)
