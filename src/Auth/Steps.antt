-- ===== src/Auth/Steps.antt =====
-- What the statements of the auth repository say when they succeed.
use mathlib.Core.Option
use esppdv.Base.{
  ℤ, String, false, List, [], ◌∷◌, ◌++◌, Option, none, some, ◌≡◌, refl, find?, any, Bool-cases, inl,
  inr,
}
use esppdv.Outcome.{Error, Result, ok}
use esppdv.Exec.{◌>>=◌, or_else}
use esppdv.Exec.Rules.{or_else-ok}
use esppdv.World.{World, Tables}
use esppdv.World.Rows.{Time, UserRecord, RefreshToken}
use esppdv.World.Sql.{M}
use esppdv.World.Quiet.{Quiet, lasting, Quiet-or_else, Quiet-query}
use esppdv.World.Atomic.{Atomic, Atomic-exec}
use esppdv.World.Inversion.{one_row-ok, quiet-elim, query-ok, exec-ok}
use esppdv.Auth.Repo.{
  User, user_of, has_username, has_user_id, has_token_id, new_token, inserted, revoked,
  get_user_by_username, get_user_by_id, insert_refresh_token, get_refresh_token,
  revoke_refresh_token, set_mfa_secret, enable_mfa, disable_mfa,
}

pub Quiet-get_user_by_username : (name : String) → Quiet (get_user_by_username name)
unfolding get_user_by_username
Quiet-get_user_by_username name = Quiet-query _

pub Quiet-get_user_by_id : (id : ℤ) → Quiet (get_user_by_id id)
unfolding get_user_by_id
Quiet-get_user_by_id id = Quiet-query _

pub Quiet-get_refresh_token : (id : String) → Quiet (get_refresh_token id)
unfolding get_refresh_token
Quiet-get_refresh_token id = Quiet-query _

pub Atomic-insert_refresh_token :
    (id : String) (user_id : ℤ) (t : Time) → Atomic (insert_refresh_token id user_id t)
unfolding insert_refresh_token
Atomic-insert_refresh_token id user_id t = Atomic-exec _

pub Atomic-set_mfa_secret : (id : ℤ) (s : List _) → Atomic (set_mfa_secret id s)
unfolding set_mfa_secret
Atomic-set_mfa_secret id s = Atomic-exec _

pub Atomic-enable_mfa : (id : ℤ) → Atomic (enable_mfa id)
unfolding enable_mfa
Atomic-enable_mfa id = Atomic-exec _

pub Atomic-disable_mfa : (id : ℤ) → Atomic (disable_mfa id)
unfolding disable_mfa
Atomic-disable_mfa id = Atomic-exec _

map-some :
    (o : Option UserRecord) {u : User}
    → Option.map user_of o ≡ some u
    → (r : UserRecord) × (o ≡ some r) × (user_of r ≡ u)
map-some none h = cc
map-some (some r) h = (r, refl, cc)

module _ {B P : Type 0} (g : User → M B) (w : World) {b : B} {t : World} where
  known :
      (o : Option UserRecord) (u : User) (w' : World)
      → Option.map user_of o ≡ some u
      → g u w' ≡ (ok b, t)
      → ((r : UserRecord) → o ≡ some r → g (user_of r) w' ≡ (ok b, t) → P)
      → P
  known o u w' h r k = let (row, found, same) = map-some o h in k row found (rw same r)

  -- A user that is read is the first live row of that name.
  pub username-elim :
      (name : String) (e : Error → Error)
      → (or_else (get_user_by_username name) e >>= g) w ≡ (ok b, t)
      → ((r : UserRecord) (w' : World)
          → find? (has_username name) w.tables.users ≡ some r
          → lasting w' ≡ lasting w
          → g (user_of r) w' ≡ (ok b, t)
          → P)
      → P
  unfolding get_user_by_username
  username-elim name e h k =
      quiet-elim g w _ (Quiet-or_else e (Quiet-query _)) h λ u w' q same rest.
        known _ u w' (one_row-ok _ (query-ok _ w (or_else-ok _ e w q))) rest
          λ r found rest. k r w' found same rest

  -- A user that is read is the first live row with that id.
  pub user_id-elim :
      (id : ℤ) (e : Error → Error)
      → (or_else (get_user_by_id id) e >>= g) w ≡ (ok b, t)
      → ((r : UserRecord) (w' : World)
          → find? (has_user_id id) w.tables.users ≡ some r
          → lasting w' ≡ lasting w
          → g (user_of r) w' ≡ (ok b, t)
          → P)
      → P
  unfolding get_user_by_id
  user_id-elim id e h k = quiet-elim g w _ (Quiet-or_else e (Quiet-query _)) h λ u w' q same rest.
      known _ u w' (one_row-ok _ (query-ok _ w (or_else-ok _ e w q))) rest
        λ r found rest. k r w' found same rest

-- A refresh token that is read is the first row with that id.
pub get_refresh_token-ok :
    (id : String) (w : World) {r : RefreshToken} {t : World}
    → get_refresh_token id w ≡ (ok r, t)
    → find? (has_token_id id) w.tables.refresh_tokens ≡ some r
unfolding get_refresh_token
get_refresh_token-ok id w h = one_row-ok _ (query-ok _ w h)

stored_as :
    (s : Tables) {s' : Tables}
    → ◌≡◌ {A = Result (Unit {0} × Tables)} (ok (tt, s)) (ok (tt, s'))
    → s ≡ s'
stored_as s h = cc

inserted-ok :
    (id : String) (user_id : ℤ) (expires : Time) (s : Tables) {s' : Tables}
    → inserted id user_id expires s ≡ ok (tt, s')
    → (any (has_token_id id) s.refresh_tokens ≡ false)
      × (record s { refresh_tokens = s.refresh_tokens ++ new_token id user_id expires ∷ [] } ≡ s')
inserted-ok id user_id expires s h = elim (Bool-cases (any (has_token_id id) s.refresh_tokens)) [
  | inl e ↦ cc (rw e at h)
  | inr e ↦ (e, stored_as _ (rw e at h))
]

-- The insertion of a refresh token: its id was unused, and it stands behind the others.
pub insert_refresh_token-ok :
    (id : String) (user_id : ℤ) (expires : Time) (w : World) {t : World}
    → insert_refresh_token id user_id expires w ≡ (ok tt, t)
    → (any (has_token_id id) w.tables.refresh_tokens ≡ false)
      × (record (w.tables) {
        refresh_tokens = w.tables.refresh_tokens ++ new_token id user_id expires ∷ [];
      }
          ≡ t.tables)
unfolding insert_refresh_token
insert_refresh_token-ok id user_id expires w h =
    inserted-ok id user_id expires w.tables (exec-ok _ w h).0

-- The revocation of a refresh token.
pub revoke_refresh_token-ok :
    (id : String) (replaced_by : Option String) (w : World) {t : World}
    → revoke_refresh_token id replaced_by w ≡ (ok tt, t)
    → (revoked id replaced_by w.now w.tables ≡ t.tables) × (t.now ≡ w.now)
unfolding revoke_refresh_token
revoke_refresh_token-ok id replaced_by w h = let (e, n) = exec-ok _ w h in (stored_as _ e, n)
