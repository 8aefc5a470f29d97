-- ===== src/Config.antt =====
-- pkg/config/config.go and internal/order/app/config.go: the configuration's blocks with their struct
-- tags, the connection string and Load. An environment gives a variable's value, or `none`.
pub mod Loading
pub mod Dsn
pub mod Defaults
pub mod Plain
pub mod Sample
mod Tests
use checkout_saga.Common.{
  String, ℕ, suc, ◌≡◌, ◌≢◌, ◌⊎◌, ◌≤◌, ◌<◌, Bool, true, false, List, [], ◌∷◌, ◌++◌, Option, none,
  some, length,
}
use checkout_saga.Common.Int.{ℤ, pos, negsuc, ◌≤ℤ◌, ltb_ℤ}
use checkout_saga.Common.Text.{Text, codes}
use checkout_saga.Common.Decimal.{decimal, parse_int}

-- App
pub record App : Type 0 where
  pub name : Text
  pub env : Text

-- Log
pub record Log : Type 0 where
  pub level : Text

-- Auth
pub record Auth : Type 0 where
  pub jwt_secret : Text
  pub jwt_expiry : ℤ

-- PG
pub record Pg : Type 0 where
  pub host : Text
  pub port : ℤ
  pub user : Text
  pub password : Text
  pub ssl_mode : Text
  pub pool_max : ℤ

-- The order service's Config
pub record Config : Type 0 where
  pub app : App
  pub log : Log
  pub pg : Pg
  pub auth : Auth
  pub http_port : Text
  pub db_name : Text

-- %d
abbrev pub shown_int : ℤ → Text
shown_int (pos n) = decimal n
shown_int (negsuc n) = b'-' ∷ decimal (suc n)

-- PG.DSN
unfoldable pub dsn : Pg → Text → Text
unfolding codes
dsn p db_name =
    codes "postgres://"
    ++ (p.user
        ++ b':'
          ∷ (p.password
              ++ b'@'
                ∷ (p.host
                    ++ b':'
                      ∷ (shown_int p.port
                          ++ b'/' ∷ (db_name ++ (codes "?sslmode=" ++ p.ssl_mode))))))

-- The env and envDefault tags of a field.
pub record Tag : Type 0 where
  pub key : String
  pub required : Bool
  pub fallback : Option Text

abbrev Environ : Type 0
Environ = String → Option Text

-- What env.Parse makes of a tag: the variable's value where it is set and not empty, else the default
-- where it is not set; a required variable is set.
pub record Reads (environ : Environ) (tag : Tag) (read : Text) : Type 0 where
  pub given : (s : Text) → environ tag.key ≡ some s → s ≢ [] → read ≡ s
  pub absent : (s : Text) → environ tag.key ≡ none → tag.fallback ≡ some s → read ≡ s
  pub present : tag.required ≡ true → environ tag.key ≢ none

-- The same for a number.
abbrev pub ReadsInt : Environ → Tag → ℤ → Type 0
ReadsInt environ tag n = (s : Text) × Reads environ tag s × (parse_int s ≡ some n)

abbrev pub required : String → Tag
required key = record { key = key; required = true; fallback = none }

unfoldable pub optional : String → String → Tag
unfolding codes
optional key d = record { key = key; required = false; fallback = some (codes d) }

-- The env tags, field by field; JWT_TOKEN_EXPIRY, which time.ParseDuration reads, is left out.
pub record IsParsed (environ : Environ) (cfg : Config) : Type 0 where
  pub name : Reads environ (optional "APP_NAME" "checkout-saga") cfg.app.name
  pub env : Reads environ (optional "APP_ENV" "development") cfg.app.env
  pub level : Reads environ (optional "LOG_LEVEL" "info") cfg.log.level
  pub secret : Reads environ (required "JWT_SECRET") cfg.auth.jwt_secret
  pub host : Reads environ (optional "POSTGRES_HOST" "localhost") cfg.pg.host
  pub port : ReadsInt environ (optional "POSTGRES_PORT" "5432") cfg.pg.port
  pub user : Reads environ (required "POSTGRES_USER") cfg.pg.user
  pub password : Reads environ (required "POSTGRES_PASSWORD") cfg.pg.password
  pub ssl_mode : Reads environ (optional "POSTGRES_SSL_MODE" "disable") cfg.pg.ssl_mode
  pub pool_max : ReadsInt environ (optional "POSTGRES_POOL_MAX" "25") cfg.pg.pool_max
  pub http_port : Reads environ (optional "ORDER_HTTP_PORT" "8081") cfg.http_port
  pub db_name : Reads environ (optional "ORDER_DB_NAME" "order_db") cfg.db_name

-- oneof
unfoldable pub OneOf : List String → Text → Type 0
unfolding codes
OneOf [] s = ⊥
OneOf (w ∷ words) s = (s ≡ codes w) ⊎ OneOf words s

-- The validate tags. min=32 counts characters, of which a text has no more than bytes.
pub record IsValid (cfg : Config) : Type 0 where
  pub env : OneOf ("development" ∷ "staging" ∷ "production" ∷ []) cfg.app.env
  pub level : OneOf ("debug" ∷ "info" ∷ "warn" ∷ "error" ∷ []) cfg.log.level
  pub secret : 32 ≤ length cfg.auth.jwt_secret
  pub expiry : ltb_ℤ (pos 0) cfg.auth.jwt_expiry ≡ true
  pub host : cfg.pg.host ≢ []
  pub port : (pos 1 ≤ℤ cfg.pg.port) × (cfg.pg.port ≤ℤ pos 65535)
  pub user : cfg.pg.user ≢ []
  pub password : cfg.pg.password ≢ []
  pub ssl_mode : OneOf ("disable" ∷ "require" ∷ "verify-ca" ∷ "verify-full" ∷ []) cfg.pg.ssl_mode
  pub pool_max : (pos 1 ≤ℤ cfg.pg.pool_max) × (cfg.pg.pool_max ≤ℤ pos 100)
  pub http_port : cfg.http_port ≢ []
  pub db_name : cfg.db_name ≢ []
