-- ===== src/Config.antt =====
-- shared/config/config.go: the settings of the services, from the environment. `env` is
-- os.LookupEnv; `parse_bool` and `parse_duration` are strconv.ParseBool and time.ParseDuration.
pub mod Laws
pub mod Tests
use esppdv.Base.{
  ℕ, suc, ◌%◌, ◌-◌, ◌^◌, ℤ, pos, negsuc, pos_part, String, Bool, false, Option, none, some, str_eq,
  ltb, if◌then◌else◌,
}
use esppdv.Text.{◌+++◌}
use esppdv.Decimal.{parse_int, format_int}
use esppdv.Outcome.{Error, failure, Result, ok, err}
use esppdv.World.Rows.{Duration}
use esppdv.Auth.Ldap.{LdapConfig}

abbrev pub Env : Type 0
Env = String → Option String

abbrev pub or_default {ℓ} : {A : Type ℓ} → Option A → A → A
or_default none default = default
or_default (some a) default = a

-- `if v, ok := os.LookupEnv(key); ok { if a, err := parse(v); err == nil { return a } }`
abbrev pub parsed {ℓ} : {A : Type ℓ} → (String → Option A) → Option String → Option A
parsed parse none = none
parsed parse (some v) = parse v

abbrev required : String → Option String → Result String
required key none = err (failure ("missing required env var " +++ key))
required key (some v) =
    if str_eq v "" then err (failure ("missing required env var " +++ key)) else ok v

-- The conversion int32(n) of a 64-bit integer.
abbrev pub int32 : ℤ → ℤ
int32 (pos n) = let m = n % 2 ^ 32 in if ltb m (2 ^ 31) then pos m else negsuc (2 ^ 32 - m - 1)
int32 (negsuc n) = let m = n % 2 ^ 32 in if ltb m (2 ^ 31) then negsuc m else pos (2 ^ 32 - m - 1)

pub record Common : Type 0 where
  pub env : String
  pub log_level : String
  pub service_name : String
  pub port : ℤ
  pub shutdown_timeout : Duration
  pub rate_limit_per_min : ℤ

pub record Postgres : Type 0 where
  pub host : String
  pub port : ℤ
  pub db : String
  pub user : String
  pub password : String
  pub ssl_mode : String
  pub max_conns : ℤ

pub record Redis : Type 0 where
  pub addr : String
  pub password : String
  pub db : ℤ

pub record Nats : Type 0 where
  pub url : String
  pub stream : String

pub record MinIo : Type 0 where
  pub endpoint : String
  pub access_key : String
  pub secret_key : String
  pub bucket : String
  pub use_ssl : Bool

-- The fields that LoadJWT sets; the others keep the zero value.
pub record JwtConfig : Type 0 where
  pub issuer : String
  pub audience : String
  pub access_ttl : Duration
  pub refresh_ttl : Duration
  pub private_key : String
  pub public_key : String
  pub private_key_passphrase : String

module _ (env : Env) where
  abbrev pub get_string : String → String → String
  get_string key default = or_default (env key) default

  unfoldable pub must_string : String → Result String
  must_string key = required key (env key)

  unfoldable pub get_int : String → ℤ → ℤ
  get_int key default = or_default (parsed parse_int (env key)) default

  unfoldable pub load_postgres : Postgres
  load_postgres = record {
    host = get_string "POSTGRES_HOST" "localhost";
    port = get_int "POSTGRES_PORT" (pos 5432);
    db = get_string "POSTGRES_DB" "esppd";
    user = get_string "POSTGRES_USER" "esppd";
    password = get_string "POSTGRES_PASSWORD" "";
    ssl_mode = get_string "POSTGRES_SSLMODE" "disable";
    max_conns = int32 (get_int "POSTGRES_MAX_CONNS" (pos 20));
  }

  unfoldable pub load_redis : Redis
  load_redis = record {
    addr = get_string "REDIS_ADDR" "localhost:6379";
    password = get_string "REDIS_PASSWORD" "";
    db = get_int "REDIS_DB" (pos 0);
  }

  unfoldable pub load_nats : Nats
  load_nats = record {
    url = get_string "NATS_URL" "nats://localhost:4222";
    stream = get_string "NATS_STREAM" "esppd";
  }

  -- LoadCrypto
  unfoldable pub data_key_base64 : String
  data_key_base64 = get_string "DATA_ENC_KEY_BASE64" ""

module _ (env : Env) (parse_bool : String → Option Bool) where
  unfoldable pub get_bool : String → Bool → Bool
  get_bool key default = or_default (parsed parse_bool (env key)) default

  unfoldable pub load_minio : MinIo
  load_minio = record {
    endpoint = get_string env "MINIO_ENDPOINT" "localhost:9000";
    access_key = get_string env "MINIO_ACCESS_KEY" "minioadmin";
    secret_key = get_string env "MINIO_SECRET_KEY" "minioadmin";
    bucket = get_string env "MINIO_BUCKET" "esppd-docs";
    use_ssl = get_bool "MINIO_USE_SSL" false;
  }

module _ (env : Env) (parse_duration : String → Option Duration) where
  unfoldable pub get_duration : String → Duration → Duration
  get_duration key default = or_default (parsed parse_duration (env key)) default

  unfoldable pub load_common : String → String → ℤ → Common
  load_common service_name port_env default_port = record {
    env = get_string env "ENV" "development";
    log_level = get_string env "LOG_LEVEL" "info";
    service_name = service_name;
    port = get_int env port_env default_port;
    shutdown_timeout = get_duration "SHUTDOWN_TIMEOUT" (pos 15000000000);
    rate_limit_per_min = get_int env "RATE_LIMIT_PER_MIN" (pos 120);
  }

  unfoldable pub load_jwt : JwtConfig
  load_jwt = record {
    issuer = get_string env "JWT_ISSUER" "esppd";
    audience = get_string env "JWT_AUDIENCE" "esppd-users";
    access_ttl = get_duration "JWT_ACCESS_TTL" (pos 900000000000);
    refresh_ttl = get_duration "JWT_REFRESH_TTL" (pos 604800000000000);
    private_key = get_string env "JWT_PRIVATE_KEY" "/secrets/jwt_private.pem";
    public_key = get_string env "JWT_PUBLIC_KEY" "/secrets/jwt_public.pem";
    private_key_passphrase = get_string env "JWT_PRIVATE_KEY_PASSPHRASE" "";
  }

-- LoadLDAP; LDAP_INSECURE_SKIP_VERIFY only goes to the transport.
unfoldable pub load_ldap : Env → (String → Option Bool) → (String → Option Duration) → LdapConfig
load_ldap env parse_bool parse_duration = record {
  mode = get_string env "AUTH_LDAP_MODE" "disabled";
  url = get_string env "LDAP_URL" "";
  bind_dn = get_string env "LDAP_BIND_DN" "";
  bind_password = get_string env "LDAP_BIND_PASSWORD" "";
  base_dn = get_string env "LDAP_BASE_DN" "";
  user_filter = get_string env "LDAP_USER_FILTER" "(uid={username})";
  start_tls = get_bool env parse_bool "LDAP_STARTTLS" false;
  timeout = get_duration env parse_duration "LDAP_TIMEOUT" (pos 5000000000);
}

-- Postgres.DSN
unfoldable pub dsn : Postgres → String
dsn p =
    "postgres://"
    +++ p.user
    +++ ":"
    +++ p.password
    +++ "@"
    +++ p.host
    +++ ":"
    +++ format_int p.port
    +++ "/"
    +++ p.db
    +++ "?sslmode="
    +++ p.ssl_mode
