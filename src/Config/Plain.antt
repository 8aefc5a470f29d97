-- ===== src/Config/Plain.antt =====
-- A loader of the order service's configuration that goes by the tags of pkg/config/config.go and
-- internal/order/app/config.go: the laws of `IsLoader` can hold. It reads a duration of 24 hours.
pub mod Checks
use checkout_saga.Common.{
  String, ◌*◌, ◌^◌, ◌≡◌, ◌≢◌, refl, subst, Bool, true, false, not, ◌&&◌, ◌||◌, List, [], ◌∷◌,
  Option, none, some, length, All, leb, arith, if◌then◌else◌,
}
use checkout_saga.Common.Int.{ℤ, pos, leb_ℤ, ltb_ℤ}
use checkout_saga.Common.Text.{Text, codes, is_empty, text_eq, text_eq_iff}
use checkout_saga.Common.Decimal.{parse_int}
use checkout_saga.GoError.{foreign, Result, ok, err, ok-injective}
use checkout_saga.Config.{
  Config, Tag, required, optional, Reads, ReadsInt, OneOf, IsParsed, IsValid,
}
use checkout_saga.Config.Loading.{Loader, IsLoader}
use Checks.{one_of, checks, all_true, checks-IsValid}

abbrev Environ : Type 0
Environ = String → Option Text

abbrev read_found : Tag → Option Text → Option Text
read_found tag (some s) = some s
read_found tag none = if tag.required then none else tag.fallback

read_found-Reads :
    (environ : Environ) (tag : Tag) (found : Option Text) (read : Text)
    → environ tag.key ≡ found
    → read_found tag found ≡ some read
    → Reads environ tag read
read_found-Reads environ tag (some s) read e h = record {
  given = λ t g _. cc;
  absent = λ t a _. cc;
  present = λ _ a. ground (arith, a, e);
}
read_found-Reads environ tag none read e h = record {
  given = λ t g _. cc;
  absent = λ t a f. ground (arith, a, f, h);
  present = λ r a. ground (arith, r, h);
}

-- One variable.
read_text : Environ → Tag → Option Text
read_text environ tag = read_found tag (environ tag.key)

read_int : Environ → Tag → Option ℤ
unfolding read_text
read_int environ tag = elim (read_text environ tag) [ none ↦ none | some s ↦ parse_int s ]

read_text-Reads :
    (environ : Environ) (tag : Tag) (read : Text)
    → read_text environ tag ≡ some read
    → Reads environ tag read
unfolding read_text
read_text-Reads environ tag read h = read_found-Reads environ tag (environ tag.key) read refl h

read_int-ReadsInt :
    (environ : Environ) (tag : Tag) (n : ℤ) → read_int environ tag ≡ some n → ReadsInt environ tag n
unfolding read_int
read_int-ReadsInt environ tag n h = go (read_text environ tag) refl h
  where
    go :
        (r : Option Text)
        → read_text environ tag ≡ r
        → elim r as (λ _. Option ℤ) [ none ↦ none | some s ↦ parse_int s ] ≡ some n
        → ReadsInt environ tag n
    go none e k = cc
    go (some s) e k = (s, read_text-Reads environ tag s e, k)

-- A field that has to be read before the others.
abbrev require {ℓ} : {A : Type ℓ} → Option A → (A → Result Config) → Result Config
require none rest = err (foreign "env: not set")
require (some a) rest = rest a

require-eq-ok {ℓ} :
    {A : Type ℓ} (o : Option A) (rest : A → Result Config) (cfg : Config)
    → require o rest ≡ ok cfg
    → (a : A) × (o ≡ some a) × (rest a ≡ ok cfg)
require-eq-ok none rest cfg h = cc
require-eq-ok (some a) rest cfg h = (a, refl, h)

parse : Environ → Result Config
unfolding read_text read_int
parse environ = require (read_text environ (optional "APP_NAME" "checkout-saga")) (λ name.
    require (read_text environ (optional "APP_ENV" "development")) (λ env.
      require (read_text environ (optional "LOG_LEVEL" "info")) (λ level.
        require (read_text environ (required "JWT_SECRET")) (λ secret.
          require (read_text environ (optional "POSTGRES_HOST" "localhost")) (λ host.
            require (read_int environ (optional "POSTGRES_PORT" "5432")) (λ port.
              require (read_text environ (required "POSTGRES_USER")) (λ user.
                require (read_text environ (required "POSTGRES_PASSWORD")) (λ password.
                  require (read_text environ (optional "POSTGRES_SSL_MODE" "disable")) (λ ssl_mode.
                    require (read_int environ (optional "POSTGRES_POOL_MAX" "25")) (λ pool_max.
                      require (read_text environ (optional "ORDER_HTTP_PORT" "8081")) (λ http_port.
                        require (read_text environ (optional "ORDER_DB_NAME" "order_db"))
                          (λ db_name. ok (record {
                            app = record { name = name; env = env };
                            log = record { level = level };
                            pg = record {
                              host = host;
                              port = port;
                              user = user;
                              password = password;
                              ssl_mode = ssl_mode;
                              pool_max = pool_max;
                            };
                            auth = record {
                              jwt_secret = secret;
                              jwt_expiry = pos (24 * 3600 * 10 ^ 9);
                            };
                            http_port = http_port;
                            db_name = db_name;
                          })))))))))))))

parse-IsParsed : (environ : Environ) (cfg : Config) → parse environ ≡ ok cfg → IsParsed environ cfg
unfolding parse
parse-IsParsed environ cfg h0 =
    let (name, r0, h1) =
      require-eq-ok (read_text environ (optional "APP_NAME" "checkout-saga")) _ cfg h0 in
    let (env, r1, h2) =
      require-eq-ok (read_text environ (optional "APP_ENV" "development")) _ cfg h1 in
    let (level, r2, h3) =
      require-eq-ok (read_text environ (optional "LOG_LEVEL" "info")) _ cfg h2 in
    let (secret, r3, h4) = require-eq-ok (read_text environ (required "JWT_SECRET")) _ cfg h3 in
    let (host, r4, h5) =
      require-eq-ok (read_text environ (optional "POSTGRES_HOST" "localhost")) _ cfg h4 in
    let (port, r5, h6) =
      require-eq-ok (read_int environ (optional "POSTGRES_PORT" "5432")) _ cfg h5 in
    let (user, r6, h7) = require-eq-ok (read_text environ (required "POSTGRES_USER")) _ cfg h6 in
    let (password, r7, h8) =
      require-eq-ok (read_text environ (required "POSTGRES_PASSWORD")) _ cfg h7 in
    let (ssl_mode, r8, h9) =
      require-eq-ok (read_text environ (optional "POSTGRES_SSL_MODE" "disable")) _ cfg h8 in
    let (pool_max, r9, h10) =
      require-eq-ok (read_int environ (optional "POSTGRES_POOL_MAX" "25")) _ cfg h9 in
    let (http_port, r10, h11) =
      require-eq-ok (read_text environ (optional "ORDER_HTTP_PORT" "8081")) _ cfg h10 in
    let (db_name, r11, h12) =
      require-eq-ok (read_text environ (optional "ORDER_DB_NAME" "order_db")) _ cfg h11 in
    subst (IsParsed environ) (ok-injective h12) (record {
      name = read_text-Reads environ (optional "APP_NAME" "checkout-saga") name r0;
      env = read_text-Reads environ (optional "APP_ENV" "development") env r1;
      level = read_text-Reads environ (optional "LOG_LEVEL" "info") level r2;
      secret = read_text-Reads environ (required "JWT_SECRET") secret r3;
      host = read_text-Reads environ (optional "POSTGRES_HOST" "localhost") host r4;
      port = read_int-ReadsInt environ (optional "POSTGRES_PORT" "5432") port r5;
      user = read_text-Reads environ (required "POSTGRES_USER") user r6;
      password = read_text-Reads environ (required "POSTGRES_PASSWORD") password r7;
      ssl_mode = read_text-Reads environ (optional "POSTGRES_SSL_MODE" "disable") ssl_mode r8;
      pool_max = read_int-ReadsInt environ (optional "POSTGRES_POOL_MAX" "25") pool_max r9;
      http_port = read_text-Reads environ (optional "ORDER_HTTP_PORT" "8081") http_port r10;
      db_name = read_text-Reads environ (optional "ORDER_DB_NAME" "order_db") db_name r11;
    })

unfoldable pub loader : Loader Config
unfolding parse one_of
loader = record {
  parse = parse;
  validate = λ cfg. if all_true (checks cfg) then none else some (foreign "validation failed");
}

pub loader-IsLoader : IsLoader loader
unfolding loader
loader-IsLoader = record {
  parsed = parse-IsParsed;
  validated = λ cfg h. checks-IsValid cfg (ground (arith, h));
}
