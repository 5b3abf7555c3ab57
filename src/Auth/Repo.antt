-- ===== src/Auth/Repo.antt =====
-- services/auth-service/internal/repo/repo.go: the tables users and refresh_tokens.
use mathlib.Core.Option
use esppdv.Base.{
  ℤ, String, Bool, true, false, not, ◌&&◌, [], ◌∷◌, ◌++◌, Option, none, some, str_eq, eqb_ℤ, find?,
  any, update, if◌then◌else◌,
}
use esppdv.Text.{Bytes}
use esppdv.Outcome.{failure, Result, ok, err}
use esppdv.World.{Tables}
use esppdv.World.Rows.{Time, UserRecord, RefreshToken}
use esppdv.World.Sql.{M, query, exec, one_row}

pub record User : Type 0 where
  pub id : ℤ
  pub username : String
  pub role : String
  pub password_hash : String
  pub is_active : Bool
  pub mfa_enabled : Bool
  pub mfa_secret_enc : Bytes

-- COALESCE(mfa_secret_enc, ''::bytea)
abbrev pub coalesce : Option Bytes → Bytes
coalesce none = []
coalesce (some b) = b

abbrev pub user_of : UserRecord → User
user_of u = record {
  id = u.id;
  username = u.username;
  role = u.role;
  password_hash = u.password_hash;
  is_active = u.is_active;
  mfa_enabled = u.mfa_enabled;
  mfa_secret_enc = coalesce u.mfa_secret_enc;
}

abbrev pub has_username : String → UserRecord → Bool
has_username username u = str_eq u.username username && not u.deleted

abbrev pub has_user_id : ℤ → UserRecord → Bool
has_user_id id u = eqb_ℤ u.id id && not u.deleted

-- GetUserByUsername
unfoldable pub get_user_by_username : String → M User
get_user_by_username username =
    query (λ w. one_row (Option.map user_of (find? (has_username username) w.tables.users)))

-- GetUserByID
unfoldable pub get_user_by_id : ℤ → M User
get_user_by_id id =
    query (λ w. one_row (Option.map user_of (find? (has_user_id id) w.tables.users)))

abbrev pub has_token_id : String → RefreshToken → Bool
has_token_id id t = str_eq t.id id

abbrev pub new_token : String → ℤ → Time → RefreshToken
new_token id user_id expires_at = record {
  id = id;
  user_id = user_id;
  expires_at = expires_at;
  revoked_at = none;
  replaced_by = none;
}

-- The id is the table's primary key.
abbrev pub inserted : String → ℤ → Time → Tables → Result (Unit {0} × Tables)
inserted id user_id expires_at t =
    if any (has_token_id id) t.refresh_tokens
    then err (failure "duplicate key value violates unique constraint")
    else ok
        (tt, record t { refresh_tokens = t.refresh_tokens ++ new_token id user_id expires_at ∷ [] })

-- InsertRefreshToken
unfoldable pub insert_refresh_token : String → ℤ → Time → M (Unit {0})
insert_refresh_token id user_id expires_at = exec (λ w. inserted id user_id expires_at w.tables)

-- GetRefreshToken
unfoldable pub get_refresh_token : String → M RefreshToken
get_refresh_token id = query (λ w. one_row (find? (has_token_id id) w.tables.refresh_tokens))

abbrev pub is_none {ℓ} : {A : Type ℓ} → Option A → Bool
is_none none = true
is_none (some a) = false

abbrev pub is_live : String → RefreshToken → Bool
is_live id t = str_eq t.id id && is_none t.revoked_at

abbrev pub revoked : String → Option String → Time → Tables → Tables
revoked id replaced_by now t = record t {
  refresh_tokens =
      update (is_live id) (λ r. record r { revoked_at = some now; replaced_by = replaced_by })
        t.refresh_tokens;
}

-- RevokeRefreshToken
unfoldable pub revoke_refresh_token : String → Option String → M (Unit {0})
revoke_refresh_token id replaced_by = exec (λ w. ok (tt, revoked id replaced_by w.now w.tables))

abbrev pub update_user : ℤ → (UserRecord → UserRecord) → Tables → Tables
update_user id f t = record t { users = update (has_user_id id) f t.users }

-- SetMFASecret
unfoldable pub set_mfa_secret : ℤ → Bytes → M (Unit {0})
set_mfa_secret user_id secret_enc = exec (λ w.
    ok (tt, update_user user_id (λ u. record u { mfa_secret_enc = some secret_enc }) w.tables))

-- EnableMFA
unfoldable pub enable_mfa : ℤ → M (Unit {0})
enable_mfa user_id = exec (λ w. ok (
  tt,
  update_user user_id (λ u. record u { mfa_enabled = true; mfa_enrolled_at = some w.now }) w.tables,
))

-- DisableMFA
unfoldable pub disable_mfa : ℤ → M (Unit {0})
disable_mfa user_id = exec (λ w. ok (
  tt,
  update_user user_id
      (λ u. record u { mfa_enabled = false; mfa_secret_enc = none; mfa_enrolled_at = none })
      w.tables,
))
