-- ===== src/App/Tests.antt =====
-- A host with a pool in memory that gets a signal, and the theorems on Run.
use checkout_saga.Common.{◌≡◌, refl, ◌∷◌, [], none, some}
use checkout_saga.Common.Int.{pos, wrap64, ◌+ℤ◌}
use checkout_saga.GoError.{ok}
use checkout_saga.Logger.{new_with_service, new as new_logger}
use checkout_saga.Logger.Backend.{info_level, ZapConfig, Zap}
use checkout_saga.Postgres.{
  Postgres, try_connect, retry, connect_with_retry, new, apply_options, close, defaults,
}
use checkout_saga.Postgres.Scripted.{Scripted, driver, driver-IsPoolDriver, server}
use checkout_saga.Config.{optional}
use checkout_saga.Common.Decimal.{parse_int}
use checkout_saga.Config.Loading.{load}
use checkout_saga.Config.Plain.{loader}
use checkout_saga.Config.Sample.{secret, environ, settings}
use checkout_saga.App.{connect_db, run, order_main, wait_for_shutdown}
use checkout_saga.App.Process.{signalled, Host, IsHost}
use checkout_saga.App.Endings.{Ends, run-Ends}
use checkout_saga.App.Exit.{Drained, order_main-Drained}

abbrev zap : Zap Scripted
zap = record {
  Logger = Unit;
  LevelEncoder = Unit;
  TimeEncoder = Unit;
  Rest = Unit;
  capital_color_level_encoder = tt;
  capital_level_encoder = tt;
  iso8601_time_encoder = tt;
  new_development_config = plain_config;
  new_production_config = plain_config;
  build = λ config skip w. (ok tt, w);
  with_fields = λ l fields. l;
  write = λ l level msg more w. w;
  sync = λ l w. (none, w);
  write_stderr = λ text w. (none, w);
}
  where
    plain_config : ZapConfig Unit Unit Unit
    plain_config = record {
      level = info_level;
      time_key = "ts";
      level_key = "level";
      encode_level = tt;
      encode_time = tt;
      output_paths = [];
      error_output_paths = [];
      rest = tt;
    }

abbrev host : Host driver zap
host = record {
  load_dotenv = λ w. (none, w);
  environ = λ w. environ;
  notify_context = λ w. w;
  stop = λ w. w;
  pool_logger = λ l. l;
  start = λ s w. w;
  select = λ s w. (signalled, w);
  shutdown = λ s w. (ok tt, w);
  max_conns = λ s. pos s;
  total_conns = λ s. pos s;
  idle_conns = λ s. pos s;
}

host-IsHost : IsHost driver-IsPoolDriver host
host-IsHost = record {
  load_dotenv_keeps = λ w. refl;
  notify_context_keeps = λ w. refl;
  stop_keeps = λ w. refl;
  start_keeps = λ s w. refl;
  select_keeps = λ s w. refl;
  shutdown_keeps = λ s w. refl;
  build_keeps = λ config w. refl;
  write_keeps = λ l level msg fields w. refl;
  sync_keeps = λ l w. refl;
  write_stderr_keeps = λ text w. refl;
}

run-Ends_example : Ends driver-IsPoolDriver host (9 ∷ []) (run host loader [] [] server)
unfolding driver-IsPoolDriver
run-Ends_example = run-Ends driver-IsPoolDriver host host-IsHost loader [] [] server

runs : Unit {0}
unfolding order_main run load loader optional parse_int new_with_service new_logger connect_db new
    connect_with_retry retry apply_options try_connect wrap64 ◌+ℤ◌ wait_for_shutdown environ secret
    settings close
runs = tt

ends_well : (order_main host loader [] [] server).0 ≡ 0
unfolding runs
ends_well = refl

order_main-Drained_example : Drained driver-IsPoolDriver host (9 ∷ [])
unfolding driver-IsPoolDriver
order_main-Drained_example =
    order_main-Drained driver-IsPoolDriver host host-IsHost loader [] [] server ends_well

-- The pool of 25 connections, at the third round
abbrev pool : Postgres driver
pool = record (defaults driver) { pool = some 2 }
