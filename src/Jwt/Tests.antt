-- ===== src/Jwt/Tests.antt =====
-- The acceptance of a sample token.
use esppdv.Base.{◌≡◌, ◌↔◌, true}
use esppdv.Outcome.{ok}
use esppdv.Jwt.{parse_and_validate, token_type_access}
use esppdv.Jwt.Validate.{Accepts, parse_and_validate_iff}
use esppdv.Sample.Data.{toy_jwt, sample_verifier, sample_claims, start}

parse_and_validate_iff_example :
    (parse_and_validate toy_jwt sample_verifier start "access"
      ≡ ok (sample_claims token_type_access "a1"))
    ↔ ((toy_jwt.parse sample_verifier.pub_key start "access"
          ≡ ok (sample_claims token_type_access "a1", true))
        × Accepts sample_verifier start (sample_claims token_type_access "a1"))
parse_and_validate_iff_example =
    parse_and_validate_iff toy_jwt sample_verifier start "access"
      (sample_claims token_type_access "a1")
