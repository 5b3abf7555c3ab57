-- ===== src/Jwt/RoundTrip.antt =====
-- The services accept the tokens that they sign.
use esppdv.Base.{
  ℤ, pos, ◌+ℤ◌, ◌-ℤ◌, ◌≤ℤ◌, int_laws, String, true, some, ◌≡◌, refl, ◌∙◌, inl, inr, [], ◌∷◌,
}
use esppdv.Outcome.{ok}
use esppdv.Text.{Bytes}
use esppdv.World.Rows.{Time}
use esppdv.Jwt.{
  Claims, JwtLib, Signer, Verifier, access_claims, new_access_token, refresh_claims,
  new_refresh_token, parse_and_validate, five_seconds,
}
use esppdv.Jwt.Validate.{parse_and_validate_iff}

abbrev pub one_second : ℤ
one_second = pos 1000000000

-- NewNumericDate cuts a time to the second.
abbrev pub CutsSeconds : JwtLib → Type 0
CutsSeconds lib =
    (t : Time) → (lib.numeric_date t ≤ℤ t) × (t +ℤ pos 1 ≤ℤ lib.numeric_date t +ℤ one_second)

-- Between its start and its expiry, the public key verifies what the private key signed.
abbrev pub KeyPair : JwtLib → Bytes → Bytes → Type 0
KeyPair lib priv pub_key =
    (c : Claims) (token : String) (now start end : Time)
    → lib.sign priv c ≡ ok token
    → c.not_before ≡ some start
    → c.expires_at ≡ some end
    → start ≤ℤ now
    → now +ℤ pos 1 ≤ℤ end
    → lib.parse pub_key now token ≡ ok (c, true)

module _ (lib : JwtLib) (s : Signer) (v : Verifier) (issued_at now : Time) (user_id : ℤ)
    (cuts : CutsSeconds lib) (keys : KeyPair lib s.priv v.pub_key) (issuer : s.issuer ≡ v.issuer)
    (audience : s.audience ≡ v.audience) (after : issued_at ≤ℤ now) where
  started : lib.numeric_date (issued_at -ℤ five_seconds) ≤ℤ now
  started = omega (int_laws, (cuts (issued_at -ℤ five_seconds)).0)

  signed_accepted :
      (c : Claims) (token : String) (ttl : ℤ)
      → lib.sign s.priv c ≡ ok token
      → c.issuer ≡ s.issuer
      → c.audience ≡ s.audience ∷ []
      → c.not_before ≡ some (lib.numeric_date (issued_at -ℤ five_seconds))
      → c.expires_at ≡ some (lib.numeric_date (issued_at +ℤ ttl))
      → now +ℤ one_second ≤ℤ issued_at +ℤ ttl
      → parse_and_validate lib v now token ≡ ok c
  signed_accepted c token ttl signed i a nb ex fresh =
      (parse_and_validate_iff lib v now token c).1 (
        keys c token now _ _ signed nb ex started (omega (int_laws, (cuts (issued_at +ℤ ttl)).1)),
        record {
          issued = i ∙ issuer;
          addressed = rw a (inl audience);
          unexpired = (_, ex, omega (int_laws, (cuts (issued_at +ℤ ttl)).1));
          started = inr (_, nb, started);
        },
      )

  -- Until the last second of its life, a token of NewAccessToken is accepted by a verifier with
  -- the signer's key pair, issuer and audience, and gives back the user, the role and the id.
  pub new_access_token-accepted :
      (role token_id token : String)
      → new_access_token lib s issued_at user_id role token_id ≡ ok token
      → now +ℤ one_second ≤ℤ issued_at +ℤ s.access_ttl
      → parse_and_validate lib v now token
        ≡ ok (access_claims lib s issued_at user_id role token_id)
  unfolding new_access_token
  new_access_token-accepted role token_id token signed fresh =
      signed_accepted _ token s.access_ttl signed refl refl refl refl fresh

  -- The same for NewRefreshToken.
  pub new_refresh_token-accepted :
      (token_id token : String)
      → new_refresh_token lib s issued_at user_id token_id ≡ ok token
      → now +ℤ one_second ≤ℤ issued_at +ℤ s.refresh_ttl
      → parse_and_validate lib v now token ≡ ok (refresh_claims lib s issued_at user_id token_id)
  unfolding new_refresh_token
  new_refresh_token-accepted token_id token signed fresh =
      signed_accepted _ token s.refresh_ttl signed refl refl refl refl fresh
