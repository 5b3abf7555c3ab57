-- ===== src/Auth/Session.antt =====
-- The handlers Refresh, Logout and Me of services/auth-service/internal/http/handler.go.
use esppdv.Base.{
  ℤ, ltb_ℤ, String, Bool, not, ◌||◌, Option, none, some, str_eq, eqb_ℤ, if◌then◌else◌,
}
use esppdv.Outcome.{http, Result, ok, err}
use esppdv.Exec.{pure, lift, gets, guard, raise_if, or_else, or_raise, attempt, ◌>>=◌, ◌>>◌}
use esppdv.World.Rows.{Time, RefreshToken}
use esppdv.World.Sql.{M}
use esppdv.Jwt.{Claims, token_type_refresh, parse_and_validate}
use esppdv.Httpx.{AuthInfo, Locals, require_auth}
use esppdv.Auth.Repo.{
  is_none, get_user_by_id, insert_refresh_token, get_refresh_token, revoke_refresh_token,
}
use esppdv.Auth.Handler.{
  Handler, TokenResponse, invalid_refresh, refresh_revoked, invalid_user, new_tokens,
  token_response, expiry,
}

-- `rec.RevokedAt != nil || time.Now().After(rec.ExpiresAt)`
abbrev pub is_spent : RefreshToken → Time → Bool
is_spent rec now = not (is_none rec.revoked_at) || ltb_ℤ rec.expires_at now

module _ (h : Handler) where
  unfoldable pub refresh : Option String → M TokenResponse
  refresh body = do
    token ← or_raise body (http 400 "invalid json")
    raise_if (str_eq token "") (http 400 "refresh_token required")
    now ← gets (λ w. w.now)
    claims ← or_else (lift (parse_and_validate h.jwt h.verifier now token)) (λ _. invalid_refresh)
    guard (str_eq claims.token_type token_type_refresh) invalid_refresh
    rec ← or_else (get_refresh_token claims.id) (λ _. refresh_revoked)
    guard (eqb_ℤ rec.user_id claims.user_id) refresh_revoked
    raise_if (is_spent rec now) refresh_revoked
    user ← or_else (get_user_by_id rec.user_id) (λ _. invalid_user)
    guard user.is_active invalid_user
    (access, renewed, refresh_jti) ← new_tokens h rec.user_id user.role
    revoke_refresh_token rec.id (some refresh_jti)
    expires ← gets (expiry h)
    insert_refresh_token refresh_jti rec.user_id expires
    pure (token_response h access renewed)

  -- What Logout does with the claims of the token in the body.
  abbrev pub revoke_claims : AuthInfo → Result Claims → M (Unit {0})
  revoke_claims a (err e) = pure tt
  revoke_claims a (ok claims) = do
    guard (eqb_ℤ claims.user_id a.user_id) (http 403 "forbidden")
    attempt (revoke_refresh_token claims.id none)
    pure tt

  unfoldable pub logout : Locals → String → M (Unit {0})
  logout locals token = do
    a ← require_auth locals
    now ← gets (λ w. w.now)
    if str_eq token ""
        then pure tt
        else revoke_claims a (parse_and_validate h.jwt h.verifier now token)

-- Me
unfoldable pub me : Locals → M (ℤ × String)
me locals = do a ← require_auth locals; pure (a.user_id, a.role)
