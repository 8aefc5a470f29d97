-- ===== src/App.antt =====
-- internal/order/app/app.go: Run, which wires the order service and ends with it, and cmd/order/main.go.
-- A call takes the world and returns it; deferred calls stand behind what they follow.
pub mod Process
pub mod Keeps
pub mod Endings
pub mod Exit
pub mod Bounds
mod Tests
use checkout_saga.Common.{String, ℕ, List, [], ◌∷◌, ◌++◌, Option, none, some}
use checkout_saga.Common.Text.{Text, codes, text_eq}
use checkout_saga.GoError.{
  Part, lit, Error, wrap, plain, prefixed, Result, ok, err, annotate, message,
}
use checkout_saga.Logger.{
  Ending, built, exited, panicked, new_with_service, debug, info, warn, error, sync,
}
use checkout_saga.Logger.Backend.{
  Field, string_field, int32_field, error_field, error_or_skip, Zap, print_error,
}
use checkout_saga.Postgres.{Postgres, PoolOption, max_conns, with_logger, new, version, stat, close}
use checkout_saga.Postgres.Pgxpool.{PoolDriver}
use checkout_saga.Jwt.{Manager}
use checkout_saga.Httpserver.{Server, new_server, port, shutdown}
use checkout_saga.Config.{Config, dsn}
use checkout_saga.Config.Loading.{Loader, load}
use checkout_saga.App.Process.{Woken, signalled, notified, Wiring, Host}

-- serviceName
unfoldable pub service_name : Text
unfolding codes
service_name = codes "order-service"

-- How the process or Run ends: Run returns, or the logger's set-up ends the process.
pub data Outcome : Type 0 where
  returned : Result (Unit {0}) → Outcome
  left : (code : ℕ) → Outcome
  crashed : List Part → Outcome

-- fmt.Errorf("app.Run: %w", err), also of a nil error
abbrev pub run_error : Option Error → Error
run_error none = plain (lit "app.Run: %!w(<nil>)" ∷ [])
run_error (some e) = prefixed "app.Run: " e

module _ {d : PoolDriver} {z : Zap d.World} (h : Host d z) where
  open d use {World}
  open z use {Logger}

  -- A line with a text of the source.
  abbrev info_line : Logger → String → List Field → World → World
  info_line log text fields w = info z log (codes text) fields w

  abbrev warn_line : Logger → String → List Field → World → World
  warn_line log text fields w = warn z log (codes text) fields w

  abbrev error_line : Logger → String → List Field → World → World
  error_line log text fields w = error z log (codes text) fields w

  -- The options of connectDB.
  abbrev pub pool_options : Logger → Config → List (PoolOption d)
  pool_options log cfg = with_logger d (some (h.pool_logger log)) ∷ max_conns d cfg.pg.pool_max ∷ []

  -- connectDB
  unfoldable pub connect_db : Logger → Config → World → Result (Postgres d) × World
  connect_db log cfg w =
      let (made, w1) = new d (dsn cfg.pg cfg.db_name) (pool_options log cfg) w in
      (annotate "connectDB: " made, w1)

  -- The version that logDBInfo shows.
  abbrev pub shown_version : Logger → Result Text × World → Text × World
  shown_version log (ok v, w) = (v, w)
  shown_version log (err e, w) =
      (codes "unknown", warn_line log "could not read postgres version" (error_field e ∷ []) w)

  -- The end of logDBInfo.
  abbrev pub log_stat : Logger → Text → Option d.Stat → World → World
  log_stat log db_version none w = warn_line log "pool stat unavailable" [] w
  log_stat log db_version (some stat) w =
      info_line log "postgres connected"
        (string_field "db_version" db_version
          ∷ int32_field "pool_max_conns" (h.max_conns stat)
          ∷ int32_field "pool_total_conns" (h.total_conns stat)
          ∷ int32_field "pool_idle_conns" (h.idle_conns stat)
          ∷ [])
        w

  -- logDBInfo
  unfoldable pub log_db_info : Logger → Postgres d → World → World
  log_db_info log pg w =
      let (db_version, w1) = shown_version log (version d pg w) in
      log_stat log db_version (stat d pg w1) w1

  -- waitForShutdown behind Shutdown.
  abbrev pub drained : Logger → Result (Unit {0}) × World → Result (Unit {0}) × World
  drained log (err e, w) =
      (err (prefixed "app.Run: " e), error_line log "http server shutdown" (error_field e ∷ []) w)
  drained log (ok _, w) = (ok tt, info_line log "shutdown complete, exiting gracefully" [] w)

  -- Server.Shutdown
  abbrev pub shut_down : Server (Wiring d z) → World → Result (Unit {0}) × World
  shut_down server w = let (stopped, w1) = h.shutdown server w in (shutdown stopped, w1)

  -- waitForShutdown behind its select.
  abbrev pub woken : Logger → Server (Wiring d z) → Woken × World → Result (Unit {0}) × World
  woken log server (signalled, w) =
      drained log
        (shut_down server (info_line log "shutdown signal received, draining http server" [] w))
  woken log server (notified e, w) = (
    err (run_error e),
    error_line log "http server stopped unexpectedly" (error_or_skip e ∷ []) w,
  )

  -- waitForShutdown
  unfoldable pub wait_for_shutdown :
      Logger → Server (Wiring d z) → World → Result (Unit {0}) × World
  wait_for_shutdown log server w = woken log server (h.select server w)

  -- The server of Run.
  abbrev pub server_of : Config → Logger → Postgres d → Server (Wiring d z)
  server_of cfg log pg =
      new_server
        (record {
          pool = pg;
          manager = record { secret = cfg.auth.jwt_secret; expiry = cfg.auth.jwt_expiry };
          log = log;
        })
        (port cfg.http_port ∷ [])

  -- Run from server.Start on.
  abbrev pub serve : Config → Logger → Server (Wiring d z) → World → Result (Unit {0}) × World
  serve cfg log server w = wait_for_shutdown log server (
      info_line log "order service ready" (string_field "http_port" cfg.http_port ∷ [])
        (h.start server w))

  -- The deferred Close of the pool.
  abbrev pub then_close : Postgres d → Result (Unit {0}) × World → Result (Unit {0}) × World
  then_close pg (end, w) = (end, close d pg w)

  -- Run behind connectDB.
  abbrev pub connected : Config → Logger → Result (Postgres d) × World → Result (Unit {0}) × World
  connected cfg log (err e, w) = (
    err (prefixed "app.Run: " e),
    error_line log "postgres connect failed after retries, shutting down" (error_field e ∷ []) w,
  )
  connected cfg log (ok pg, w) =
      then_close pg (serve cfg log (server_of cfg log pg) (log_db_info log pg w))

  -- The deferred stop and Sync.
  abbrev pub then_sync : Logger → Result (Unit {0}) × World → Outcome × World
  then_sync log (end, w) =
      (returned end, print_error z "logger sync failed: " (sync z log (h.stop w)))

  -- Run behind its logger.
  abbrev pub logged : (version commit : Text) → Config → Ending Logger × World → Outcome × World
  logged version commit cfg (exited code, w) = (left code, w)
  logged version commit cfg (panicked text, w) = (crashed text, w)
  logged version commit cfg (built log, w) = then_sync log (
      connected cfg log (
        connect_db log cfg (
          info_line log "order service starting"
            (string_field "version" version
              ∷ string_field "commit" commit
              ∷ string_field "env" cfg.app.env
              ∷ [])
            (h.notify_context w))))

  -- Run behind config.Load.
  abbrev pub configured : (version commit : Text) → Result Config → World → Outcome × World
  configured version commit (err e) w = (returned (err (prefixed "app.Run: load config: " e)), w)
  configured version commit (ok cfg) w =
      logged version commit cfg (
        new_with_service z cfg.log.level service_name (text_eq cfg.app.env (codes "development")) w)

  -- Run
  unfoldable pub run : Loader Config → (version commit : Text) → World → Outcome × World
  run l version commit w =
      let w1 = print_error z "warning: .env not loaded: " (h.load_dotenv w) in
      configured version commit (load l (h.environ w1)) w1

  -- The exit status of main; a panic ends a Go program with status 2.
  abbrev pub exit_status : Outcome × World → ℕ × World
  exit_status (returned (ok _), w) = (0, w)
  exit_status (returned (err e), w) = (1, print_error z "order-service fatal: " (some e, w))
  exit_status (left code, w) = (code, w)
  exit_status (crashed text, w) = (2, w)

  -- main of cmd/order, with the version and the commit of its build
  unfoldable pub order_main : Loader Config → (version commit : Text) → World → ℕ × World
  order_main l version commit w = exit_status (run l version commit w)
