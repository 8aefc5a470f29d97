-- ===== src/Config/Defaults.antt =====
-- The settings that Load of pkg/config returns where the environment leaves them to the defaults.
use checkout_saga.Common.{
  String, ◌≡◌, refl, ap, ◌∙◌, sym, ◌++◌, Option, none, some, some-injective, ◌∷◌,
}
use checkout_saga.Common.Int.{ℤ, pos}
use checkout_saga.Common.Text.{Text, codes}
use checkout_saga.Common.Decimal.{parse_int, decimal}
use checkout_saga.GoError.{Error, Result, ok, err, ◌>>=◌, annotate}
use checkout_saga.Config.{Config, dsn, ReadsInt, optional, Tag}
use checkout_saga.Config.Loading.{Loader, IsLoader, load, checked}

checked-eq-ok :
    {C : Type 0} (c cfg : C) (e : Option Error) → checked c e ≡ ok cfg → (c ≡ cfg) × (e ≡ none)
checked-eq-ok c cfg none h = (cc, refl)
checked-eq-ok c cfg (some e) h = cc

-- What Load returns has been parsed, and validated.
pub load-eq-ok :
    {C : Type 0} (l : Loader C) (environ : String → Option Text) (cfg : C)
    → load l environ ≡ ok cfg
    → (l.parse environ ≡ ok cfg) × (l.validate cfg ≡ none)
unfolding load
load-eq-ok {C} l environ cfg h = go (l.parse environ) refl h
  where
    go :
        (r : Result C)
        → l.parse environ ≡ r
        → (annotate "config.Load: parse env: " r >>= (λ c. checked c (l.validate c))) ≡ ok cfg
        → (l.parse environ ≡ ok cfg) × (l.validate cfg ≡ none)
    go (err e) p k = cc
    go (ok c) p k =
        let (same, valid) = checked-eq-ok c cfg (l.validate c) k in
        (p ∙ ap ok same, ap l.validate (sym same) ∙ valid)

int_default :
    (environ : String → Option Text) (tag : Tag) (n : ℤ) (d : Text) (m : ℤ)
    → ReadsInt environ tag n
    → environ tag.key ≡ none
    → tag.fallback ≡ some d
    → parse_int d ≡ some m
    → n ≡ m
int_default environ tag n d m (s, reads, read) h f k =
    some-injective (sym read ∙ ap parse_int (reads.absent d h f) ∙ k)

-- The variables of the database's address are not set.
pub record LeavesDefaults (environ : String → Option Text) : Type 0 where
  pub host : environ "POSTGRES_HOST" ≡ none
  pub port : environ "POSTGRES_PORT" ≡ none
  pub ssl_mode : environ "POSTGRES_SSL_MODE" ≡ none
  pub db_name : environ "ORDER_DB_NAME" ≡ none

-- Where an environment sets no host, port, SSL mode or database name, and Load succeeds, the DSN is
-- that of order_db on port 5432 of localhost without SSL, with the user and the password given.
load-dsn :
    (l : Loader Config)
    → IsLoader l
    → (environ : String → Option Text) (cfg : Config) → LeavesDefaults environ
    → load l environ ≡ ok cfg
    → dsn cfg.pg cfg.db_name
      ≡ codes "postgres://"
        ++ (cfg.pg.user
            ++ b':' ∷ (cfg.pg.password ++ codes "@localhost:5432/order_db?sslmode=disable"))
unfolding dsn codes optional parse_int decimal
load-dsn l laws environ cfg unset h =
    let parsed = laws.parsed environ cfg (load-eq-ok l environ cfg h).0 in
    rw
      (
        parsed.host.absent (codes "localhost") unset.host refl,
        int_default environ (optional "POSTGRES_PORT" "5432") cfg.pg.port (codes "5432") (pos 5432)
            parsed.port unset.port refl refl,
        parsed.db_name.absent (codes "order_db") unset.db_name refl,
        parsed.ssl_mode.absent (codes "disable") unset.ssl_mode refl,
      )
      refl
