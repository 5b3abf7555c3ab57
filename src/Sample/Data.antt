-- ===== src/Sample/Data.antt =====
-- A user, a handler and worlds for the tests.
use esppdv.Base.{pos, String, true, false, [], ◌∷◌, ◌++◌, none, some, str_eq, if◌then◌else◌}
use esppdv.Text.{Bytes}
use esppdv.Outcome.{failure, ok, err}
use esppdv.World.{World, Tables}
use esppdv.World.Rows.{Time, UserRecord}
use esppdv.World.Sql.{no_setting}
use esppdv.Jwt.{Claims, JwtLib, Verifier, token_type_access, token_type_refresh}
use esppdv.Totp.{TotpLib}
use esppdv.Auth.Ldap.{LdapLib}
use esppdv.Auth.Handler.{Handler}
use esppdv.Auth.Repo.{new_token}
use esppdv.Httpx.{Locals, locals_of}
use esppdv.Sample.Cipher.{toy_gcm}

abbrev pub start : Time
start = pos 1000000000000000000

abbrev pub twenty : Bytes
twenty =
    1 ∷ 2 ∷ 3 ∷ 4 ∷ 5 ∷ 6 ∷ 7 ∷ 8 ∷ 9 ∷ 10 ∷ 11 ∷ 12 ∷ 13 ∷ 14 ∷ 15 ∷ 16 ∷ 17 ∷ 18 ∷ 19 ∷ 0 ∷ []

abbrev pub sample_user : UserRecord
sample_user = record {
  id = pos 7;
  username = "siti";
  role = "APPROVER";
  password_hash = "hash of rahasia";
  is_active = true;
  mfa_enabled = false;
  mfa_secret_enc = some (9 ∷ 65 ∷ []);
  mfa_enrolled_at = none;
  deleted = false;
}

abbrev pub refresh_id : String
refresh_id = "r1"

abbrev pub sample_tables : Tables
sample_tables = record {
  units = [];
  employees = [];
  users = sample_user ∷ [];
  user_units = record { user_id = pos 7; unit_id = pos 3 } ∷ [];
  refresh_tokens = new_token refresh_id (pos 7) (pos 2000000000000000000) ∷ [];
  spds = [];
  approvals = [];
  budgets = [];
  documents = [];
  notifications = [];
  audit_logs = [];
}

-- 80 random bytes.
abbrev pub sample_world : World
sample_world = record {
  tables = sample_tables;
  serial = λ table. 41;
  setting = no_setting;
  rls = true;
  faults = [];
  entropy = twenty ++ twenty ++ twenty ++ twenty;
  nc = true;
  published = [];
  objects = [];
  now = start;
}

-- The claims of the tokens "access" and "refresh".
abbrev pub sample_claims : String → String → Claims
sample_claims token_type id = record {
  issuer = "esppd";
  subject = "7";
  audience = "esppd-api" ∷ [];
  issued_at = none;
  not_before = none;
  expires_at = some (pos 1900000000000000000);
  id = id;
  user_id = pos 7;
  role = "APPROVER";
  token_type = token_type;
}

abbrev pub toy_jwt : JwtLib
toy_jwt = record {
  sign = λ key c. ok c.id;
  parse = λ key now token.
      if str_eq token "refresh"
      then ok (sample_claims token_type_refresh refresh_id, true)
      else if str_eq token "access"
      then ok (sample_claims token_type_access "a1", true)
      else err (failure "token is malformed");
  numeric_date = λ t. t;
}

abbrev pub toy_totp : TotpLib
toy_totp = record { base32_decode = λ s. some (1 ∷ []); hmac_sha1 = λ key msg. twenty }

abbrev pub toy_ldap : LdapLib
toy_ldap = record {
  dial = λ url. err (failure "no route to host");
  escape_filter = λ s. s;
  ctx_err = none;
}

abbrev pub sample_verifier : Verifier
sample_verifier = record { pub_key = []; issuer = "esppd"; audience = "esppd-api" }

abbrev pub sample_handler : Handler
sample_handler = record {
  jwt = toy_jwt;
  totp = toy_totp;
  base32_encode = λ b. "A";
  compare_hash_and_password = λ hash password. str_eq password "rahasia";
  ldap_lib = toy_ldap;
  ldap = none;
  signer = record {
    priv = [];
    issuer = "esppd";
    audience = "esppd-api";
    access_ttl = pos 900000000000;
    refresh_ttl = pos 604800000000000;
  };
  verifier = sample_verifier;
  gcm = toy_gcm;
  mfa_issuer = "esppd";
  access_ttl = pos 900000000000;
  refresh_ttl = pos 604800000000000;
}

abbrev pub sample_locals : Locals
sample_locals = locals_of (sample_claims token_type_access "a1")
