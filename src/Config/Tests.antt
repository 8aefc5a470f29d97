-- ===== src/Config/Tests.antt =====
-- The theorems on the configuration, at a sample environment.
use checkout_saga.Common.{◌≡◌, refl, ◌∷◌, [], some, arith, true, All, Bool, ◌&&◌}
use checkout_saga.Common.Text.{Text, codes}
use checkout_saga.Common.Decimal.{parse_int}
use checkout_saga.Config.{Pg, dsn, shown_int}
use checkout_saga.Config.Dsn.{
  is_unreserved, IsUnreserved, read_url, parts_of, IsPlain, read_url-dsn,
}
use checkout_saga.Config.Defaults.{LeavesDefaults}
use checkout_saga.Config.Sample.{environ, settings}

unset : LeavesDefaults environ
unfolding environ
unset = record { host = refl; port = refl; ssl_mode = refl; db_name = refl }

-- Settings with a user and a password, on localhost
abbrev login : (user password : Text) → Pg
login user password = record (settings.pg) { user = user; password = password }

abbrev all_unreserved : Text → Bool
all_unreserved [] = true
all_unreserved (a ∷ s) = is_unreserved a && all_unreserved s

all_unreserved_lem : (s : Text) → all_unreserved s ≡ true → All IsUnreserved s
all_unreserved_lem [] h = tt
all_unreserved_lem (a ∷ s) h = (ground (arith, h), all_unreserved_lem s (ground (arith, h)))

plain : IsPlain settings.pg settings.db_name
unfolding settings codes
plain = record {
  user = all_unreserved_lem settings.pg.user refl;
  password = all_unreserved_lem settings.pg.password refl;
  host = all_unreserved_lem settings.pg.host refl;
  database = all_unreserved_lem settings.db_name refl;
  ssl_mode = all_unreserved_lem settings.pg.ssl_mode refl;
  port = ground arith;
}

read_url-dsn_example :
    (read_url (dsn settings.pg settings.db_name) ≡ some (parts_of settings.pg settings.db_name))
    × (parse_int (shown_int settings.pg.port) ≡ some settings.pg.port)
unfolding settings
read_url-dsn_example = read_url-dsn settings.pg settings.db_name plain (ground arith)

-- A user with a colon: another user and password have the same DSN.
same_dsn :
    dsn (login (b'a' ∷ b':' ∷ b'b' ∷ []) (b'c' ∷ [])) (b'd' ∷ [])
    ≡ dsn (login (b'a' ∷ []) (b'b' ∷ b':' ∷ b'c' ∷ [])) (b'd' ∷ [])
unfolding dsn
same_dsn = refl
