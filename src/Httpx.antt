-- ===== src/Httpx.antt =====
-- shared/httpx/httpx.go: authentication middleware, parameters, errors and the rate limiter.
pub mod Auth
pub mod Guards
pub mod RateLimit
pub mod Tests
use esppdv.Base.{
  ℕ, ℤ, pos, String, Bool, true, false, not, ◌&&◌, List, [], ◌∷◌, Option, none, some, str_eq,
  if◌then◌else◌,
}
use esppdv.Text.{equal_fold, split_space}
use esppdv.Decimal.{parse_int}
use esppdv.Outcome.{Error, http, no_rows, failure, Result, ok, err}
use esppdv.Exec.{raise, lift, or_raise, ◌>>=◌}
use esppdv.World.{World}
use esppdv.World.Rows.{Time}
use esppdv.World.Sql.{M}
use esppdv.Jwt.{Claims, JwtLib, Verifier, token_type_access, parse_and_validate}

-- A value of c.Locals: an int64, a string, or nothing.
pub data Local : Type 0 where
  int64 : ℤ → Local
  text : String → Local
  absent : Local

-- c.Locals under the keys "user_id", "user_role", "token_type" and "token_id".
pub record Locals : Type 0 where
  pub user_id : Local
  pub user_role : Local
  pub token_type : Local
  pub token_id : Local

pub record AuthInfo : Type 0 where
  pub user_id : ℤ
  pub role : String
  pub token_type : String
  pub token_id : String

-- `v, _ := local.(string)`
abbrev pub as_text : Local → String
as_text (text s) = s
as_text _ = ""

abbrev pub auth_of : Local → Locals → Option AuthInfo
auth_of (int64 uid) l = some (record {
  user_id = uid;
  role = as_text l.user_role;
  token_type = as_text l.token_type;
  token_id = as_text l.token_id;
})
auth_of _ l = none

-- AuthFromLocals
unfoldable pub auth_from_locals : Locals → Option AuthInfo
auth_from_locals l = auth_of l.user_id l

abbrev pub unauthorized : Error
unauthorized = http 401 "unauthorized"

-- `a, ok := httpx.AuthFromLocals(c); if !ok { … }`
unfoldable pub require_auth : Locals → M AuthInfo
unfolding auth_from_locals
require_auth l = or_raise (auth_from_locals l) unauthorized

-- The locals that the middleware sets.
abbrev pub locals_of : Claims → Locals
locals_of c = record {
  user_id = int64 c.user_id;
  user_role = text c.role;
  token_type = text c.token_type;
  token_id = text c.id;
}

-- The parts of "Bearer <token>".
abbrev pub bearer : Option (String × String) → Result String
bearer none = err (http 401 "invalid Authorization header")
bearer (some (scheme, token)) =
    if equal_fold scheme "Bearer" then ok token else err (http 401 "invalid Authorization header")

module _ (lib : JwtLib) (verifier : Verifier) where
  abbrev pub access_checked : Bool → Result Claims → Result Claims
  access_checked require_access (err e) = err (http 401 "invalid token")
  access_checked require_access (ok c) =
      if require_access && not (str_eq c.token_type token_type_access)
      then err (http 401 "access token required")
      else ok c

  abbrev pub token_checked : Bool → Time → Result String → Result Claims
  token_checked require_access now (err e) = err e
  token_checked require_access now (ok token) =
      access_checked require_access (parse_and_validate lib verifier now token)

  -- The claims that JWTAuth takes from the Authorization header.
  unfoldable pub authenticate : Bool → Time → String → Result Claims
  authenticate require_access now header =
      if str_eq header ""
      then err (http 401 "missing Authorization header")
      else token_checked require_access now (bearer (split_space header))

  -- JWTAuth: c.Next() runs with the locals set.
  unfoldable pub jwt_auth : {A : Type 0} → Bool → String → (Locals → M A) → M A
  jwt_auth require_access header next w =
      let m : M _ = lift (authenticate require_access w.now header) >>= λ c. next (locals_of c) in
      m w

-- WriteError: the status code and the message of the reply.
unfoldable pub write_error : Error → ℕ × String
write_error (http code message) = (code, message)
write_error no_rows = (500, "internal error")
write_error (failure e) = (500, "internal error")

abbrev pub invalid_id : Error
invalid_id = http 400 "invalid id"

-- ParseIDParam, on the value of the parameter.
unfoldable pub parse_id_param : String → M ℤ
parse_id_param id_str = or_raise (parse_int id_str) invalid_id
