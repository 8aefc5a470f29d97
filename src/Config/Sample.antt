-- ===== src/Config/Sample.antt =====
-- An environment of the order service that sets the variables that are required, and what Load makes
-- of it with the loader that goes by the tags.
use checkout_saga.Common.{String, ◌≡◌, refl, Option, none, some, if◌then◌else◌}
use checkout_saga.Common.Int.{pos}
use checkout_saga.Common.Text.{Text, codes, text_eq}
use checkout_saga.Common.Decimal.{parse_int}
use checkout_saga.GoError.{ok}
use checkout_saga.Config.{Config, optional}
use checkout_saga.Config.Loading.{load}
use checkout_saga.Config.Plain.{loader}

unfoldable pub secret : Text
unfolding codes
secret = codes "dev-secret-change-in-production-min-32-chars"

-- POSTGRES_USER, POSTGRES_PASSWORD and JWT_SECRET are set.
unfoldable pub environ : String → Option Text
unfolding codes text_eq
environ key =
    if text_eq (codes key) (codes "JWT_SECRET")
    then some secret
    else if text_eq (codes key) (codes "POSTGRES_USER")
    then some (codes "checkout")
    else if text_eq (codes key) (codes "POSTGRES_PASSWORD")
    then some (codes "pw")
    else none

unfoldable pub settings : Config
unfolding codes
settings = record {
  app = record { name = codes "checkout-saga"; env = codes "development" };
  log = record { level = codes "info" };
  pg = record {
    host = codes "localhost";
    port = pos 5432;
    user = codes "checkout";
    password = codes "pw";
    ssl_mode = codes "disable";
    pool_max = pos 25;
  };
  auth = record { jwt_secret = secret; jwt_expiry = pos 86400000000000 };
  http_port = codes "8081";
  db_name = codes "order_db";
}

pub loaded : load loader environ ≡ ok settings
unfolding load loader environ settings optional codes parse_int text_eq secret
loaded = refl
