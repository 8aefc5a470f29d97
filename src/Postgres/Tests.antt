-- ===== src/Postgres/Tests.antt =====
-- The theorems of pkg/postgres, on the pool in memory.
use checkout_saga.Common.{◌≡◌, refl, true, false, List, [], ◌∷◌, none, some, arith}
use checkout_saga.Common.Int.{pos, wrap64, ◌+ℤ◌, ◌*ℤ◌}
use checkout_saga.GoError.{foreign, ok, prefixed}
use checkout_saga.Postgres.{
  Postgres, PoolOption, defaults, apply_options, max_conns, try_connect, retry, connect_with_retry,
  new, close, second,
}
use checkout_saga.Postgres.Pgxpool.{PoolConfig}
use checkout_saga.Postgres.Connect.{Tried, start, again, Connection, connect_with_retry-Connection}
use checkout_saga.Postgres.Termination.{loop, loop-connect_with_retry}
use checkout_saga.Postgres.Lifecycle.{NewLeaves, new-NewLeaves}
use checkout_saga.Postgres.Scripted.{Scripted, driver, driver-IsPoolDriver, server}

runs : Unit {0}
unfolding try_connect retry connect_with_retry new close apply_options ◌*ℤ◌ wrap64 ◌+ℤ◌
runs = tt

-- The third round succeeds, and the two pools that did not answer are closed.
third_round : (new driver [] [] server).1.opened ≡ 2 ∷ 9 ∷ []
unfolding runs
third_round = refl

abbrev config : PoolConfig driver.Parsed
config = record {
  parsed = tt;
  max_conns = pos 25;
  min_conns = pos 5;
  max_conn_lifetime = pos second;
  max_conn_idle_time = pos second;
}

connect_with_retry-Connection_example :
    Connection
      (defaults driver)
      config
      server
      (connect_with_retry driver (defaults driver) config server)
connect_with_retry-Connection_example =
    connect_with_retry-Connection (defaults driver) config server (ground arith)

-- The server behind the first failed round.
abbrev one_failed : Scripted
one_failed = record {
  created = 1;
  opened = 9 ∷ [];
  answers = false ∷ true ∷ [];
  warnings =
      record {
        attempt = pos 1;
        max_attempts = pos 5;
        next_backoff = pos second;
        error = prefixed "ping: " (foreign "refused");
      }
      ∷ [];
}

first_failed : Tried (defaults driver) config server 1 (wrap64 (pos second *ℤ pos 2)) one_failed
unfolding runs
first_failed = again (prefixed "ping: " (foreign "refused")) start refl refl

new-NewLeaves_example : NewLeaves driver-IsPoolDriver server (new driver [] [] server)
unfolding apply_options
new-NewLeaves_example = new-NewLeaves driver-IsPoolDriver [] [] server (ground arith)

-- A pool of 2 connections: MinConns is lowered from 5.
abbrev small_pool : Postgres driver
small_pool = record (defaults driver) { pool = some 2; max_conns = pos 2; min_conns = pos 2 }

abbrev small : List (PoolOption driver)
small = max_conns driver (pos 2) ∷ []

small_made : (new driver [] small server).0 ≡ ok small_pool
unfolding runs
small_made = refl

loop-connect_with_retry_example :
    loop (defaults driver) config 6 (pos 1) (pos second) none server
    ≡ some (connect_with_retry driver (defaults driver) config server)
loop-connect_with_retry_example =
    loop-connect_with_retry (defaults driver) config 6 server (ground arith) (ground arith)
