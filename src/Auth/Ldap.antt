-- ===== src/Auth/Ldap.antt =====
-- services/auth-service/internal/ldap/ldap.go: a password check by binding to a directory.
use Prim.Native.String.{count}
use esppdv.Base.{
  ℕ, zero, suc, ◌-◌, pos, leb_ℤ, String, Bool, true, false, not, ◌&&◌, ◌||◌, List, [], ◌∷◌, Option,
  none, some, str_eq, if◌then◌else◌, ◌≡◌, ◌≢◌, arith, eq_iff,
}
use text.Mathlib.Text.{starts_with}
use esppdv.Text.{◌+++◌, trim_space, to_lower}
use esppdv.Outcome.{failure, Result, ok, err}
use esppdv.World.Rows.{Duration}

-- config.LDAP, without the settings of the transport.
pub record LdapConfig : Type 0 where
  pub mode : String
  pub url : String
  pub bind_dn : String
  pub bind_password : String
  pub base_dn : String
  pub user_filter : String
  pub start_tls : Bool
  pub timeout : Duration

-- The outcome of conn.Bind; the server tells invalid credentials apart.
pub data Bind : Type 0 where
  bound : Bind
  invalid_credentials : Bind
  bind_error : String → Bind

-- A connection of github.com/go-ldap/ldap: StartTLS, Bind with a name and a password, and the
-- names that Search finds below a base for a filter.
pub record LdapConn : Type 0 where
  pub start_tls : Result (Unit {0})
  pub bind : String → String → Bind
  pub search : String → String → Result (List String)

-- DialURL, EscapeFilter, and ctx.Err() after the last bind.
pub record LdapLib : Type 0 where
  pub dial : String → Result LdapConn
  pub escape_filter : String → String
  pub ctx_err : Option String

-- strings.ReplaceAll: `skip` characters of a match are still to be passed over.
replace_from : ℕ → String → String → String → String
replace_from skip old new String.[] = String.[]
replace_from (suc skip) old new (String.◌∷◌ c s) = replace_from skip old new s
replace_from zero old new (String.◌∷◌ c s) =
    let matched = replace_from (count old - 1) old new s in
    let kept = replace_from zero old new s in
    if starts_with (String.◌∷◌ c s) old then new +++ matched else String.◌∷◌ c kept

unfoldable pub replace_all : String → String → String → String
unfolding replace_from
replace_all s old new = replace_from zero old new s

-- New
unfoldable pub new_client : LdapConfig → LdapConfig
new_client cfg =
    let mode = to_lower (trim_space cfg.mode) in
    record cfg { mode = if str_eq mode "" then "disabled" else mode }

-- Enabled
abbrev pub is_enabled : LdapConfig → Bool
is_enabled cfg =
    not (str_eq cfg.mode "disabled") && not (str_eq cfg.url "") && not (str_eq cfg.base_dn "")

-- Timeout
unfoldable pub timeout_of : LdapConfig → Duration
timeout_of cfg = if leb_ℤ cfg.timeout (pos 0) then pos 5000000000 else cfg.timeout

infixl 5 ◌>>=◌ ◌>>◌
abbrev ◌>>=◌ : {A B : Type 0} → Result A → (A → Result B) → Result B
ok a >>= f = f a
err e >>= f = err e

abbrev ◌>>◌ : {A B : Type 0} → Result A → Result B → Result B
m >> n = m >>= λ _. n

-- conn.StartTLS, if it is configured.
abbrev secured : Bool → LdapConn → Result (Unit {0})
secured true conn = conn.start_tls
secured false conn = ok tt

abbrev service_bound : Bind → Result (Unit {0})
service_bound bound = ok tt
service_bound invalid_credentials = err (failure "invalid credentials")
service_bound (bind_error e) = err (failure e)

abbrev cancelled : Option String → Result Bool
cancelled none = ok true
cancelled (some e) = err (failure e)

abbrev user_bound : LdapLib → Bind → Result Bool
user_bound lib bound = cancelled lib.ctx_err
user_bound lib invalid_credentials = ok false
user_bound lib (bind_error e) = err (failure e)

-- The password is tried on the first name found.
abbrev bind_first : LdapLib → LdapConn → String → List String → Result Bool
bind_first lib conn password [] = ok false
bind_first lib conn password (dn ∷ _) =
    if str_eq dn ""
    then err (failure "ldap: empty user dn")
    else user_bound lib (conn.bind dn password)

-- The dialogue with the directory.
dialogue : LdapLib → LdapConfig → String → String → Result Bool
dialogue lib cfg username password = do
  conn ← lib.dial cfg.url
  secured cfg.start_tls conn
  (if str_eq cfg.bind_dn "" then ok tt else service_bound (conn.bind cfg.bind_dn cfg.bind_password))
  names ←
      conn.search cfg.base_dn
        (replace_all cfg.user_filter "{username}" (lib.escape_filter username))
  bind_first lib conn password names

-- Authenticate
unfoldable pub authenticate : LdapLib → LdapConfig → String → String → Result Bool
unfolding dialogue
authenticate lib cfg username password =
    if not (is_enabled cfg)
    then ok false
    else if str_eq (trim_space username) "" || str_eq password ""
    then ok false
    else dialogue lib cfg (trim_space username) password

bind_first-true :
    (lib : LdapLib) (conn : LdapConn) (password : String) (names : List String)
    → bind_first lib conn password names ≡ ok true
    → (dn : String) × (dn ≢ "") × (conn.bind dn password ≡ bound)
bind_first-true lib conn password [] h = cc
bind_first-true lib conn password (dn ∷ names) h =
    (dn, λ e. ground (arith, eq_iff dn ""), ground (arith, eq_iff dn ""))
