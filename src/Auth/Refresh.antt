-- ===== src/Auth/Refresh.antt =====
-- What a successful Refresh has checked and written, and that it spends the token.
use esppdv.Base.{
  String, true, false, [], ◌∷◌, ◌++◌, some, ◌≡◌, refl, ap, ◌∙◌, arith, find?, find?-update, eq_iff,
  eqb_ℤ,
}
use esppdv.Outcome.{ok}
use esppdv.Exec.Rules.{bind-elim, or_else-ok, lift-ok}
use esppdv.World.{World, Tables}
use esppdv.World.Rows.{Time, UserRecord, RefreshToken}
use esppdv.World.Quiet.{lasting-tables, lasting-now, Quiet-or_else, Quiet-lift}
use esppdv.World.Inversion.{pure-ok, quiet-elim, gets-elim, guard-elim, raise_if-elim}
use esppdv.Jwt.{Claims, token_type_refresh, new_refresh_token, parse_and_validate}
use esppdv.Auth.Repo.{has_token_id, has_user_id, is_live, new_token, revoked}
use esppdv.Auth.Steps.{
  user_id-elim, Quiet-get_refresh_token, get_refresh_token-ok, revoke_refresh_token-ok,
  insert_refresh_token-ok,
}
use esppdv.Auth.Handler.{Handler, TokenResponse, expiry}
use esppdv.Auth.Login.{Quiet-new_tokens, new_tokens-ok}
use esppdv.Auth.Session.{is_spent, refresh}

-- The tables after a rotation: the old token is revoked and names its successor, which is added.
abbrev pub rotated : Handler → World → RefreshToken → String → Tables
rotated h w rec jti =
    let t = revoked rec.id (some jti) w.now w.tables in
    record t { refresh_tokens = t.refresh_tokens ++ new_token jti rec.user_id (expiry h w) ∷ [] }

-- What a Refresh has checked, and what it has written and returned.
pub record Refreshed (h : Handler) (token : String) (w w' : World) (reply : TokenResponse)
    : Type 0 where
  pub claims : Claims
  pub valid : parse_and_validate h.jwt h.verifier w.now token ≡ ok claims
  pub kind : claims.token_type ≡ token_type_refresh
  pub rec : RefreshToken
  pub found : find? (has_token_id claims.id) w.tables.refresh_tokens ≡ some rec
  pub owned : eqb_ℤ rec.user_id claims.user_id ≡ true
  pub unspent : is_spent rec w.now ≡ false
  pub user : UserRecord
  pub known : find? (has_user_id rec.user_id) w.tables.users ≡ some user
  pub active : user.is_active ≡ true
  pub refresh_jti : String
  pub stored : w'.tables ≡ rotated h w rec refresh_jti
  pub renewed :
      new_refresh_token h.jwt h.signer w.now rec.user_id refresh_jti ≡ ok reply.refresh_token

-- A Refresh that returns tokens was given a valid refresh token whose row was there, belonged to
-- the user of the claims and was neither revoked nor expired; the user is active; and it has
-- revoked that row, in favour of one new row whose signed form the reply holds, and changed
-- nothing else.
pub refresh-Refreshed :
    (h : Handler) (token : String) (w w' : World) (reply : TokenResponse)
    → refresh h (some token) w ≡ (ok reply, w')
    → Refreshed h token w w' reply
unfolding refresh
refresh-Refreshed h token w w' reply k =
    gets-elim _ _ (λ _. token) k
      λ k. raise_if-elim _ _ _ _ k λ _ k. gets-elim _ _ _ k λ k.
        quiet-elim _ _ _ (Quiet-or_else _ (Quiet-lift _)) k λ c w1 k1 same1 k.
          guard-elim _ _ _ _ k λ kind k.
            quiet-elim _ _ _ (Quiet-or_else _ (Quiet-get_refresh_token _)) k λ rec w2 k2 same2 k.
              guard-elim _ _ _ _ k λ owned k. raise_if-elim _ _ _ _ k λ unspent k.
                user_id-elim _ _ _ _ k λ u w3 known same3 k. guard-elim _ _ _ _ k λ active k.
                  quiet-elim _ _ _ (Quiet-new_tokens h rec.user_id u.role) k λ p w4 k4 same4 k.
                    bind-elim _ _ _ k λ _ w5 k5 k. gets-elim _ _ _ k λ k.
                      bind-elim _ _ _ k λ _ w6 k6 k.
                        let (valid, here) = lift-ok _ w (or_else-ok _ _ w k1) in
                        let found = get_refresh_token-ok c.id w1 (or_else-ok _ _ w1 k2) in
                        let (jti, access, renewed) = new_tokens-ok h rec.user_id u.role w3 k4 in
                        let (gone, at5) = revoke_refresh_token-ok rec.id _ w4 k5 in
                        let (unused, added) = insert_refresh_token-ok p.2 rec.user_id _ w5 k6 in
                        let (replied, ended) = pure-ok _ w6 k in
                        let now3 = lasting-now w w3 (same3 ∙ same2 ∙ same1) in
                        let now4 = lasting-now w w4 (same4 ∙ same3 ∙ same2 ∙ same1) in
                        let tables1 = lasting-tables w w1 same1 in
                        let tables2 = lasting-tables w w2 (same2 ∙ same1) in
                        let tables4 = lasting-tables w w4 (same4 ∙ same3 ∙ same2 ∙ same1) in
                        record {
                          claims = c;
                          valid = valid;
                          kind = (eq_iff _ _).0 kind;
                          rec = rec;
                          found = rw tables1 at found;
                          owned = owned;
                          unspent = unspent;
                          user = u;
                          known = rw tables2 at known;
                          active = active;
                          refresh_jti = p.2;
                          stored = cc (now4, at5, tables4, ended, gone, added);
                          renewed =
                              cc (
                                now3,
                                ap (λ (r : TokenResponse). r.refresh_token) replied,
                                renewed,
                              );
                        }

spent : (rec : RefreshToken) (now t : Time) → rec.revoked_at ≡ some t → is_spent rec now ≡ true
spent rec now t h = rw h refl

unspent-live :
    (rec : RefreshToken) (now : Time) → is_spent rec now ≡ false → is_live rec.id rec ≡ true
unspent-live rec now h = ground (arith, (eq_iff rec.id rec.id).1 refl)

-- The row that a rotation leaves under the id of the old token is a revoked one.
rotated-spent :
    (h : Handler) (w : World) (rec : RefreshToken) (jti id : String)
    → find? (has_token_id id) w.tables.refresh_tokens ≡ some rec
    → is_spent rec w.now ≡ false
    → (rec' : RefreshToken) × (find? (has_token_id id) (rotated h w rec jti).refresh_tokens
        ≡ some rec')
      × (rec'.revoked_at ≡ some w.now)
rotated-spent h w rec jti id found unspent = (
  _,
  find?-update (has_token_id id) (is_live rec.id) _ (λ x. refl) w.tables.refresh_tokens _ rec found
      (unspent-live rec w.now unspent),
  refl,
)

-- A refresh token is good for one Refresh: once it has succeeded, no Refresh with that token does,
-- at any later state that has kept the refresh tokens, where what the library reads as the claims
-- of a valid token does not depend on the clock.
pub refresh-once :
    (h : Handler) (token : String) (w w' v v' : World) (reply reply' : TokenResponse)
    → ((t u : Time) (c d : Claims)
        → parse_and_validate h.jwt h.verifier t token ≡ ok c
        → parse_and_validate h.jwt h.verifier u token ≡ ok d
        → c ≡ d)
    → refresh h (some token) w ≡ (ok reply, w')
    → v.tables.refresh_tokens ≡ w'.tables.refresh_tokens
    → ¬ (refresh h (some token) v ≡ (ok reply', v'))
refresh-once h token w w' v v' reply reply' steady first kept second =
    let a = refresh-Refreshed h token w w' reply first in
    let b = refresh-Refreshed h token v v' reply' second in
    let same = steady w.now v.now a.claims b.claims a.valid b.valid in
    let (rec', found', gone) =
      rotated-spent h w a.rec a.refresh_jti a.claims.id a.found a.unspent in
    let tokens = kept ∙ ap (λ (t : Tables). t.refresh_tokens) a.stored in
    let again = rw (tokens, ← same) at b.found in
    let e : b.rec ≡ rec' = cc (again, found') in
    cc (ap (λ r. is_spent r v.now) e, spent rec' v.now w.now gone, b.unspent)
