-- ===== src/Config/Plain/Checks.antt =====
-- The validate tags of pkg/config/config.go and internal/order/app/config.go as Boolean checks.
use checkout_saga.Common.{
  String, ◌≡◌, ◌≢◌, refl, Bool, true, false, not, ◌&&◌, ◌||◌, List, [], ◌∷◌, length, All, leb,
  arith,
}
use checkout_saga.Common.Int.{pos, leb_ℤ, ltb_ℤ}
use checkout_saga.Common.Text.{Text, codes, is_empty, text_eq, text_eq_iff}
use checkout_saga.Config.{Config, OneOf, IsValid}

unfoldable pub one_of : List String → Text → Bool
unfolding text_eq codes
one_of [] s = false
one_of (w ∷ words) s = text_eq s (codes w) || one_of words s

one_of-OneOf : (words : List String) (s : Text) → one_of words s ≡ true → OneOf words s
unfolding one_of OneOf
one_of-OneOf [] s h = cc
one_of-OneOf (w ∷ words) s h = ground (arith, text_eq_iff s (codes w), one_of-OneOf words s)

abbrev pub checks : Config → List Bool
checks cfg =
    one_of ("development" ∷ "staging" ∷ "production" ∷ []) cfg.app.env
    ∷ one_of ("debug" ∷ "info" ∷ "warn" ∷ "error" ∷ []) cfg.log.level
    ∷ leb 32 (length cfg.auth.jwt_secret)
    ∷ ltb_ℤ (pos 0) cfg.auth.jwt_expiry
    ∷ not (is_empty cfg.pg.host)
    ∷ (leb_ℤ (pos 1) cfg.pg.port && leb_ℤ cfg.pg.port (pos 65535))
    ∷ not (is_empty cfg.pg.user)
    ∷ not (is_empty cfg.pg.password)
    ∷ one_of ("disable" ∷ "require" ∷ "verify-ca" ∷ "verify-full" ∷ []) cfg.pg.ssl_mode
    ∷ (leb_ℤ (pos 1) cfg.pg.pool_max && leb_ℤ cfg.pg.pool_max (pos 100))
    ∷ not (is_empty cfg.http_port)
    ∷ not (is_empty cfg.db_name)
    ∷ []

abbrev pub all_true : List Bool → Bool
all_true [] = true
all_true (b ∷ bs) = b && all_true bs

all_true-All : (bs : List Bool) → all_true bs ≡ true → All (λ b. b ≡ true) bs
all_true-All [] h = tt
all_true-All (true ∷ bs) h = (refl, all_true-All bs h)
all_true-All (false ∷ bs) h = cc

not_empty : (s : Text) → not (is_empty s) ≡ true → s ≢ []
not_empty [] h = cc
not_empty (a ∷ s) h = λ e. cc

pub checks-IsValid : (cfg : Config) → all_true (checks cfg) ≡ true → IsValid cfg
checks-IsValid cfg h =
    let c = all_true-All (checks cfg) h in
    record {
      env = one_of-OneOf ("development" ∷ "staging" ∷ "production" ∷ []) cfg.app.env c.0;
      level = one_of-OneOf ("debug" ∷ "info" ∷ "warn" ∷ "error" ∷ []) cfg.log.level c.1.0;
      secret = ground (arith, c.1.1.0);
      expiry = c.1.1.1.0;
      host = not_empty cfg.pg.host c.1.1.1.1.0;
      port = ground (arith, c.1.1.1.1.1.0);
      user = not_empty cfg.pg.user c.1.1.1.1.1.1.0;
      password = not_empty cfg.pg.password c.1.1.1.1.1.1.1.0;
      ssl_mode =
          one_of-OneOf ("disable" ∷ "require" ∷ "verify-ca" ∷ "verify-full" ∷ []) cfg.pg.ssl_mode
            c.1.1.1.1.1.1.1.1.0;
      pool_max = ground (arith, c.1.1.1.1.1.1.1.1.1.0);
      http_port = not_empty cfg.http_port c.1.1.1.1.1.1.1.1.1.1.0;
      db_name = not_empty cfg.db_name c.1.1.1.1.1.1.1.1.1.1.1.0;
    }
