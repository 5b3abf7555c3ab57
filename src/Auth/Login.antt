-- ===== src/Auth/Login.antt =====
-- What a successful Login has checked and written, and that a failed one writes nothing.
use esppdv.Base.{
  ℕ, ℤ, String, Bool, true, false, ◌&&◌, ◌||◌, eq_iff, arith, [], ◌∷◌, ◌++◌, Option, none, some,
  ◌≡◌, ◌⊎◌, inl, inr, refl, ap, ◌∙◌, find?, any, str_eq, Bool-cases,
}
use esppdv.Outcome.{Error, Result, ok, err}
use esppdv.Exec.Rules.{bind-elim}
use esppdv.World.{World, Tables}
use esppdv.World.Rows.{Time, UserRecord}
use esppdv.World.Quiet.{Quiet, lasting-tables, lasting-now, quiet_rules}
use esppdv.World.Atomic.{Atomic, Atomic-bind, Atomic-bind_pure}
use esppdv.World.Inversion.{pure-ok, quiet-elim, gets-elim, lift-elim, guard-elim, raise_if-elim}
use esppdv.Crypto.{decrypt_string}
use esppdv.Jwt.{new_access_token, new_refresh_token}
use esppdv.Auth.Ldap.{LdapConfig, is_enabled, authenticate}
use esppdv.Auth.Repo.{user_of, has_username, has_token_id, new_token}
use esppdv.Auth.Steps.{
  username-elim, Quiet-get_user_by_username, Atomic-insert_refresh_token, insert_refresh_token-ok,
}
use esppdv.Auth.Handler.{
  Handler, LoginRequest, TokenResponse, ldap_verdict, ldap_login, code_is_valid, check_mfa,
  new_token_id, new_tokens, expiry, login, verdict, otp_checked, is_empty, invalid_credentials,
}

Quiet-new_token_id : (n : ℕ) → Quiet (new_token_id n)
unfolding new_token_id
Quiet-new_token_id n = search quiet_rules

pub Quiet-new_tokens :
    (h : Handler) (user_id : ℤ) (role : String) → Quiet (new_tokens h user_id role)
unfolding new_tokens
Quiet-new_tokens h user_id role = search (quiet_rules, Quiet-new_token_id) depth 12

pub login-Atomic : (h : Handler) (body : Option LoginRequest) → Atomic (login h body)
unfolding login
login-Atomic h body =
    search
      (
        quiet_rules, Atomic-bind, Atomic-bind_pure, Quiet-new_tokens, Quiet-get_user_by_username,
        Atomic-insert_refresh_token,
      )
      depth 20

-- A Login that ends in an error has left every table as it was.
pub login_fails :
    (h : Handler) (body : Option LoginRequest) (w : World) (e : Error)
    → (login h body w).0 ≡ err e
    → (login h body w).1.tables ≡ w.tables
login_fails h body w e k = (login-Atomic h body).at w e k

-- The second factor, where the user has one.
abbrev pub SecondFactor : Handler → UserRecord → String → Time → Type 0
SecondFactor h u otp now =
    (u.mfa_enabled ≡ false)
    ⊎ ((secret : String) × (decrypt_string h.gcm (user_of u).mfa_secret_enc "users:mfa_secret"
          ≡ ok secret)
        × (code_is_valid h secret otp now ≡ some true))

-- The tables behind a login: one new refresh token, for the user and until the handler's time.
abbrev pub with_token : Handler → World → String → ℤ → Tables
with_token h w jti user_id = record (w.tables) {
  refresh_tokens = w.tables.refresh_tokens ++ new_token jti user_id (expiry h w) ∷ [];
}

-- The directory is configured and in use, and it has accepted the user's password.
pub record Directory (h : Handler) (username password : String) : Type 0 where
  pub config : LdapConfig
  pub configured : h.ldap ≡ some config
  pub enabled : is_enabled config ≡ true
  pub in_use : (config.mode ≡ "prefer") ⊎ (config.mode ≡ "required")
  pub accepted : authenticate h.ldap_lib config username password ≡ ok true

-- The directory is in use and its verdict is needed.
abbrev pub requires_directory : Option LdapConfig → Bool
requires_directory none = false
requires_directory (some cfg) = is_enabled cfg && str_eq cfg.mode "required"

-- What a Login has checked, and what it has written and returned.
pub record LoggedIn (h : Handler) (req : LoginRequest) (w w' : World) (reply : TokenResponse)
    : Type 0 where
  pub user : UserRecord
  pub found : find? (has_username req.username) w.tables.users ≡ some user
  pub active : user.is_active ≡ true
  pub vouched :
      Directory h req.username req.password
      ⊎ ((requires_directory h.ldap ≡ false)
          × (h.compare_hash_and_password user.password_hash req.password ≡ true))
  pub second_factor : SecondFactor h user req.otp w.now
  pub access_jti : String
  pub refresh_jti : String
  pub unused : any (has_token_id refresh_jti) w.tables.refresh_tokens ≡ false
  pub stored : w'.tables ≡ with_token h w refresh_jti user.id
  pub access :
      new_access_token h.jwt h.signer w.now user.id user.role access_jti ≡ ok reply.access_token
  pub refresh : new_refresh_token h.jwt h.signer w.now user.id refresh_jti ≡ ok reply.refresh_token

verdict-ok : (e : Error) (o : Option Bool) → verdict e o ≡ ok tt → o ≡ some true
verdict-ok e none h = cc
verdict-ok e (some true) h = refl
verdict-ok e (some false) h = cc

otp_checked-ok :
    (h : Handler) (r : Result String) (otp : String) (now : Time)
    → otp_checked h r otp now ≡ ok tt
    → (secret : String) × (r ≡ ok secret) × (code_is_valid h secret otp now ≡ some true)
otp_checked-ok h (err e) otp now k = cc
otp_checked-ok h (ok secret) otp now k = elim (Bool-cases (str_eq otp "")) [
  | inl e ↦ cc (rw e at k)
  | inr e ↦ (secret, refl, verdict-ok invalid_credentials _ (rw e at k))
]

check_mfa-ok :
    (h : Handler) (u : UserRecord) (otp : String) (now : Time)
    → check_mfa h (user_of u) otp now ≡ ok tt
    → SecondFactor h u otp now
unfolding check_mfa
check_mfa-ok h u otp now k = elim (Bool-cases u.mfa_enabled) [
  | inr off ↦ inl off
  | inl on ↦ elim (Bool-cases (is_empty (user_of u).mfa_secret_enc)) [
    | inl e ↦ cc (rw (on, e) at k)
    | inr e ↦ inr (otp_checked-ok h _ otp now (rw (on, e) at k))
  ]
]

-- The tokens that new_tokens returns, at the instant of the request.
pub new_tokens-ok :
    (h : Handler) (user_id : ℤ) (role : String) (w : World) {p : String × String × String}
    {t : World}
    → new_tokens h user_id role w ≡ (ok p, t)
    → (access_jti : String) × (new_access_token h.jwt h.signer w.now user_id role access_jti
        ≡ ok p.0)
      × (new_refresh_token h.jwt h.signer w.now user_id p.2 ≡ ok p.1)
unfolding new_tokens
new_tokens-ok h user_id role w {p} k = quiet-elim _ _ _ (Quiet-new_token_id 16) k λ a w1 _ same1 k.
    quiet-elim _ _ _ (Quiet-new_token_id 32) k λ r w2 _ same2 k. gets-elim _ _ _ k λ k.
      lift-elim _ _ _ k λ access signed k. lift-elim _ _ _ k λ renewed signed' k.
        let e : w2.now ≡ w.now = lasting-now w w2 (same2 ∙ same1) in
        let same = (pure-ok _ w2 k).0 in
        let first : access ≡ p.0 = ap (λ (q : String × String × String). q.0) same in
        let second : renewed ≡ p.1 = ap (λ (q : String × String × String). q.1) same in
        let third : r ≡ p.2 = ap (λ (q : String × String × String). q.2) same in
        (a, cc (e, first, signed), cc (e, second, third, signed'))

ldap_verdict-true :
    (h : Handler) (required : Bool) (r : Result Bool)
    → ldap_verdict h required r ≡ ok true
    → r ≡ ok true
ldap_verdict-true h true (err e) k = cc
ldap_verdict-true h false (err e) k = cc
ldap_verdict-true h required (ok true) k = refl
ldap_verdict-true h true (ok false) k = cc
ldap_verdict-true h false (ok false) k = cc

ldap_verdict-false :
    (h : Handler) (required : Bool) (r : Result Bool)
    → ldap_verdict h required r ≡ ok false
    → required ≡ false
ldap_verdict-false h true (err e) k = cc
ldap_verdict-false h true (ok true) k = cc
ldap_verdict-false h true (ok false) k = cc
ldap_verdict-false h false r k = refl

-- The modes in which Login asks the directory.
is_asking : LdapConfig → Bool
is_asking cfg = is_enabled cfg && (str_eq cfg.mode "prefer" || str_eq cfg.mode "required")

asking :
    (cfg : LdapConfig)
    → is_asking cfg ≡ true
    → (is_enabled cfg ≡ true) × ((cfg.mode ≡ "prefer") ⊎ (cfg.mode ≡ "required"))
unfolding is_asking
asking cfg k = elim (Bool-cases (is_enabled cfg)) [
  | inr off ↦ cc (rw off at k)
  | inl on ↦ (
    on,
    elim (Bool-cases (str_eq cfg.mode "prefer")) [
      | inl e ↦ inl ((eq_iff cfg.mode "prefer").0 e)
      | inr e ↦ inr ((eq_iff cfg.mode "required").0 (rw (on, e) at k))
    ],
  )
]

ldap_login-true :
    (h : Handler) (o : Option LdapConfig) (username password : String)
    → h.ldap ≡ o
    → ldap_login h o username password ≡ ok true
    → Directory h username password
unfolding ldap_login is_asking
ldap_login-true h none username password c k = cc
ldap_login-true h (some cfg) username password c k = elim (Bool-cases (is_asking cfg)) [
  | inr e ↦ cc (rw e at k)
  | inl e ↦
      let (on, mode) = asking cfg e in
      record {
        config = cfg;
        configured = c;
        enabled = on;
        in_use = mode;
        accepted = ldap_verdict-true h (str_eq cfg.mode "required") _ (rw e at k);
      }
]

ldap_login-false :
    (h : Handler) (o : Option LdapConfig) (username password : String)
    → ldap_login h o username password ≡ ok false
    → requires_directory o ≡ false
unfolding ldap_login is_asking
ldap_login-false h none username password k = refl
ldap_login-false h (some cfg) username password k = elim (Bool-cases (is_asking cfg)) [
  | inr e ↦ ground arith
  | inl e ↦ rw (ldap_verdict-false h (str_eq cfg.mode "required") _ (rw e at k)) (ground arith)
]

vouched_by :
    (h : Handler) (username password : String) (authed hashed : Bool)
    → ldap_login h h.ldap username password ≡ ok authed
    → authed || hashed ≡ true
    → Directory h username password ⊎ ((requires_directory h.ldap ≡ false) × (hashed ≡ true))
vouched_by h username password true hashed e k =
    inl (ldap_login-true h h.ldap username password refl e)
vouched_by h username password false hashed e k =
    inr (ldap_login-false h h.ldap username password e, k)

-- A Login that returns tokens has found an active user of that name; a directory that is enabled and
-- in mode prefer or required has accepted the password, or the stored hash has, where no directory
-- is required; a code has been checked where the user has the second factor on; and the tables have
-- changed by one new, unused refresh token for that user, of which the reply holds the signed form.
pub login-LoggedIn :
    (h : Handler) (req : LoginRequest) (w w' : World) (reply : TokenResponse)
    → login h (some req) w ≡ (ok reply, w')
    → LoggedIn h req w w' reply
unfolding login
login-LoggedIn h req w w' reply k =
    gets-elim _ _ (λ _. req) k
      λ k. raise_if-elim _ _ _ _ k λ _ k. username-elim _ _ _ _ k λ u w1 found same1 k.
        guard-elim _ _ _ _ k λ active k. lift-elim _ _ _ k λ authed ldap k.
          guard-elim _ _ _ _ k λ vouched k. gets-elim _ _ _ k λ k. lift-elim _ _ _ k λ _ mfa k.
            quiet-elim _ _ _ (Quiet-new_tokens h u.id u.role) k λ p w2 k2 same2 k.
              gets-elim _ _ _ k λ k. bind-elim _ _ _ k λ _ w3 k3 k.
                let now1 = lasting-now w w1 same1 in
                let now2 = lasting-now w w2 (same2 ∙ same1) in
                let tables2 = lasting-tables w w2 (same2 ∙ same1) in
                let (jti, access, renewed) = new_tokens-ok h u.id u.role w1 k2 in
                let (unused, stored) = insert_refresh_token-ok p.2 u.id _ w2 k3 in
                let (replied, ended) = pure-ok _ w3 k in
                record {
                  user = u;
                  found = found;
                  active = active;
                  vouched = vouched_by h req.username req.password authed _ ldap vouched;
                  second_factor = check_mfa-ok h u req.otp w.now (rw now1 at mfa);
                  access_jti = jti;
                  refresh_jti = p.2;
                  unused = rw tables2 at unused;
                  stored = cc (now2, tables2, ended, stored);
                  access = cc (now1, ap (λ (r : TokenResponse). r.access_token) replied, access);
                  refresh = cc (now1, ap (λ (r : TokenResponse). r.refresh_token) replied, renewed);
                }
