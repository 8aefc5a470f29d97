-- ===== src/App/Keeps.antt =====
-- The calls of internal/order/app/app.go that leave every pool as it is.
use checkout_saga.Common.{Bool, String, ◌≡◌, refl, ◌∙◌, Option, none, some}
use checkout_saga.Common.Text.{Text}
use checkout_saga.GoError.{Error, Result, ok, err}
use checkout_saga.Logger.{
  Ending, built, exited, panicked, new, named, built_or_report, after_report, config,
  new_with_service,
}
use checkout_saga.Logger.Backend.{Zap, print_error}
use checkout_saga.Postgres.{Postgres, version}
use checkout_saga.Postgres.Pgxpool.{PoolDriver, IsPoolDriver}
use checkout_saga.Httpserver.{Server}
use checkout_saga.App.{shown_version, log_stat, log_db_info, drained, woken, wait_for_shutdown}
use checkout_saga.App.Process.{Woken, signalled, notified, Wiring, Host, IsHost}

module _ {d : PoolDriver} {z : Zap d.World} (laws : IsPoolDriver d) (h : Host d z)
    (keeps : IsHost laws h) where
  open laws use {opened}

  pub print_error-opened :
      (before : String) (e : Option Error) (w : d.World)
      → opened (print_error z before (e, w)) ≡ opened w
  print_error-opened before none w = refl
  print_error-opened before (some e) w = keeps.write_stderr_keeps _ w

  built_or_report-opened :
      (made : Result z.Logger) (w : d.World) → opened (built_or_report z (made, w)).1 ≡ opened w
  built_or_report-opened (ok l) w = refl
  built_or_report-opened (err e) w = go e _ (keeps.write_stderr_keeps _ w)
    where
      go :
          (e : Error) (reported : Option Error × d.World)
          → opened reported.1 ≡ opened w
          → opened (after_report z e reported).1 ≡ opened w
      go e (none, w1) k = k
      go e (some f, w1) k = k

  named-opened :
      (service : Text) (end : Ending z.Logger) (w : d.World)
      → opened (named z service (end, w)).1 ≡ opened w
  named-opened service (built l) w = refl
  named-opened service (exited code) w = refl
  named-opened service (panicked text) w = refl

  pub new_with_service-opened :
      (level service : Text) (development : Bool) (w : d.World)
      → opened (new_with_service z level service development w).1 ≡ opened w
  unfolding new_with_service new
  new_with_service-opened level service development w =
      let made = z.build (config z level development) 1 w in
      named-opened service (built_or_report z made).0 (built_or_report z made).1
      ∙ built_or_report-opened made.0 made.1
      ∙ keeps.build_keeps (config z level development) w

  log_stat-opened :
      (log : z.Logger) (v : Text) (s : Option d.Stat) (w : d.World)
      → opened (log_stat h log v s w) ≡ opened w
  log_stat-opened log v none w = keeps.write_keeps log _ _ _ w
  log_stat-opened log v (some s) w = keeps.write_keeps log _ _ _ w

  shown_version-opened :
      (log : z.Logger) (read : Result Text) (w : d.World)
      → opened (shown_version h log (read, w)).1 ≡ opened w
  shown_version-opened log (ok v) w = refl
  shown_version-opened log (err e) w = keeps.write_keeps log _ _ _ w

  version-opened : (p : Postgres d) (w : d.World) → opened (version d p w).1 ≡ opened w
  unfolding version
  version-opened p w = go p.pool
    where
      go : (pool : Option d.Pool) → opened (version d (record p { pool = pool }) w).1 ≡ opened w
      go none = refl
      go (some pool) = laws.version_keeps pool w

  pub log_db_info-opened :
      (log : z.Logger) (pg : Postgres d) (w : d.World) → opened (log_db_info h log pg w) ≡ opened w
  unfolding log_db_info
  log_db_info-opened log pg w =
      log_stat-opened log (shown_version h log (version d pg w)).0 _
        (shown_version h log (version d pg w)).1
      ∙ shown_version-opened log (version d pg w).0 (version d pg w).1
      ∙ version-opened pg w

  drained-opened :
      (log : z.Logger) (stopped : Result (Unit {0})) (w : d.World)
      → opened (drained h log (stopped, w)).1 ≡ opened w
  drained-opened log (ok _) w = keeps.write_keeps log _ _ _ w
  drained-opened log (err e) w = keeps.write_keeps log _ _ _ w

  woken-opened :
      (log : z.Logger) (server : Server (Wiring d z)) (why : Woken) (w : d.World)
      → opened (woken h log server (why, w)).1 ≡ opened w
  woken-opened log server signalled w =
      drained-opened log _ _ ∙ keeps.shutdown_keeps server _ ∙ keeps.write_keeps log _ _ _ w
  woken-opened log server (notified e) w = keeps.write_keeps log _ _ _ w

  pub wait-opened :
      (log : z.Logger) (server : Server (Wiring d z)) (w : d.World)
      → opened (wait_for_shutdown h log server w).1 ≡ opened w
  unfolding wait_for_shutdown
  wait-opened log server w =
      woken-opened log server (h.select server w).0 (h.select server w).1
      ∙ keeps.select_keeps server w
