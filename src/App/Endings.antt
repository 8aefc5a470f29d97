-- ===== src/App/Endings.antt =====
-- How Run of internal/order/app/app.go ends, and which pools it leaves open.
use checkout_saga.Common.{◌≡◌, refl, ap, ◌∙◌, List, [], ◌∷◌, some, arith}
use checkout_saga.Common.Text.{Text, codes}
use checkout_saga.GoError.{Part, Error, prefixed, Result, ok, err, annotate}
use checkout_saga.Logger.{Ending, info}
use checkout_saga.Logger.SetUp.{SetUp, set_up, gave_up, panicking, new_with_service-SetUp}
use checkout_saga.Logger.Backend.{Zap, string_field, print_error}
use checkout_saga.Postgres.{Postgres, new, close, apply_options}
use checkout_saga.Postgres.Pgxpool.{PoolDriver, IsPoolDriver}
use checkout_saga.Postgres.Lifecycle.{NewLeaves, new-NewLeaves}
use checkout_saga.Httpserver.{Server}
use checkout_saga.Config.{Config, dsn}
use checkout_saga.Config.Loading.{Loader, load}
use checkout_saga.App.{
  Outcome, returned, left, crashed, service_name, pool_options, connect_db, log_db_info,
  wait_for_shutdown, server_of, then_close, connected, then_sync, logged, configured, run,
}
use checkout_saga.App.Process.{Wiring, Host, IsHost}
use checkout_saga.App.Keeps.{
  print_error-opened, new_with_service-opened, log_db_info-opened, wait-opened,
}

module _ {d : PoolDriver} {z : Zap d.World} (laws : IsPoolDriver d) (h : Host d z) where
  open laws use {opened}

  -- What Run may have done, for a call in a world with the pools `before` open: it failed or ended
  -- before it had a pool, or it had one, which was open when it began to wait and still when the wait
  -- and the draining were over, and which it then closed.
  pub data Ends (before : List d.Pool) : Outcome × d.World → Type 0 where
    failed : (e : Error) (w : d.World) → opened w ≡ before → Ends before (returned (err e), w)
    left_early : (w : d.World) → opened w ≡ before → Ends before (left 1, w)
    crashed_early :
        (text : List Part) (w : d.World) → opened w ≡ before → Ends before (crashed text, w)
    served :
        (pg : Postgres d) (pool : d.Pool) (log : z.Logger) (server : Server (Wiring d z))
        (end : Result (Unit {0})) (w1 w2 w3 : d.World)
        → pg.pool ≡ some pool
        → opened w1 ≡ pool ∷ before
        → wait_for_shutdown h log server w1 ≡ (end, w2)
        → opened w2 ≡ pool ∷ before
        → then_sync h log (then_close h pg (end, w2)) ≡ (returned end, w3)
        → opened w3 ≡ before
        → Ends before (returned end, w3)

  close-opened :
      (pg : Postgres d) (pool : d.Pool) (w : d.World) (before : List d.Pool)
      → pg.pool ≡ some pool
      → opened w ≡ pool ∷ before
      → opened (close d pg w) ≡ before
  unfolding close
  close-opened pg pool w before p k = rw p (laws.close_newest pool w before k)

  module _ (keeps : IsHost laws h) where
    then_sync-opened :
        (log : z.Logger) (w : d.World) (end : Result (Unit {0}))
        → opened (then_sync h log (end, w)).1 ≡ opened w
    then_sync-opened log w end =
        print_error-opened laws h keeps _ (z.sync log (h.stop w)).0 (z.sync log (h.stop w)).1
        ∙ keeps.sync_keeps log (h.stop w)
        ∙ keeps.stop_keeps w

    connect_db-NewLeaves :
        (log : z.Logger) (cfg : Config) (w : d.World) → NewLeaves laws w (connect_db h log cfg w)
    unfolding connect_db apply_options
    connect_db-NewLeaves log cfg w =
        go (new d _ _ w)
          (new-NewLeaves laws (dsn cfg.pg cfg.db_name) (pool_options h log cfg) w (ground arith))
      where
        go :
            (made : Result (Postgres d) × d.World)
            → NewLeaves laws w made
            → NewLeaves laws w (annotate "connectDB: " made.0, made.1)
        go (ok p, w1) k = k
        go (err e, w1) k = k

    failed_connect-Ends :
        (cfg : Config) (log : z.Logger) (e : Error) (w : d.World) (before : List d.Pool)
        → opened w ≡ before
        → Ends before (then_sync h log (connected h cfg log (err e, w)))
    failed_connect-Ends cfg log e w before k =
        failed _ _ (
          then_sync-opened log _ (err (prefixed "app.Run: " e)) ∙ keeps.write_keeps log _ _ _ w ∙ k)

    served-Ends :
        (cfg : Config) (log : z.Logger) (pg : Postgres d) (pool : d.Pool) (w : d.World)
        (before : List d.Pool)
        → pg.pool ≡ some pool
        → opened w ≡ pool ∷ before
        → Ends before (then_sync h log (connected h cfg log (ok pg, w)))
    served-Ends cfg log pg pool w before p k =
        let server = server_of h cfg log pg in
        let w1 =
          info z log (codes "order service ready") (string_field "http_port" cfg.http_port ∷ [])
            (h.start server (log_db_info h log pg w)) in
        let waited = wait_for_shutdown h log server w1 in
        let held : opened w1 ≡ pool ∷ before =
          keeps.write_keeps log _ _ _ _
          ∙ keeps.start_keeps server _
          ∙ log_db_info-opened laws h keeps log pg w
          ∙ k in
        let still : opened waited.1 ≡ pool ∷ before =
          wait-opened laws h keeps log server w1 ∙ held in
        served pg pool log server waited.0 w1 waited.1 _ p held refl still refl
          (then_sync-opened log _ waited.0 ∙ close-opened pg pool waited.1 before p still)

    connected-Ends :
        (cfg : Config) (log : z.Logger) (made : Result (Postgres d) × d.World) (w : d.World)
        (before : List d.Pool)
        → NewLeaves laws w made
        → opened w ≡ before
        → Ends before (then_sync h log (connected h cfg log made))
    connected-Ends cfg log (err e, w1) w before kept k =
        failed_connect-Ends cfg log e w1 before (kept ∙ k)
    connected-Ends cfg log (ok pg, w1) w before ((pool, p, held), _) k =
        served-Ends cfg log pg pool w1 before p (held ∙ ap (λ l. pool ∷ l) k)

    logged-Ends :
        (version commit : Text) (cfg : Config) (end : Ending z.Logger) (w : d.World)
        (before : List d.Pool)
        → SetUp end
        → opened w ≡ before
        → Ends before (logged h version commit cfg (end, w))
    logged-Ends version commit cfg _ w before (set_up log) k =
        connected-Ends cfg log _ _ before (connect_db-NewLeaves log cfg _)
          (keeps.write_keeps log _ _ _ _ ∙ keeps.notify_context_keeps w ∙ k)
    logged-Ends version commit cfg _ w before gave_up k = left_early w k
    logged-Ends version commit cfg _ w before (panicking text) k = crashed_early text w k

    configured-Ends :
        (version commit : Text) (read : Result Config) (w : d.World) (before : List d.Pool)
        → opened w ≡ before
        → Ends before (configured h version commit read w)
    configured-Ends version commit (err e) w before k = failed _ w k
    configured-Ends version commit (ok cfg) w before k =
        logged-Ends version commit cfg _ _ before
          (new_with_service-SetUp z cfg.log.level service_name _ w)
          (new_with_service-opened laws h keeps cfg.log.level service_name _ w ∙ k)

    -- Where no call of the host touches the pools, Run ends in one of four ways, each with the pools
    -- open that were open before: with an error, without a pool of its own; by status 1 or a panic of
    -- the logger's set-up; or with what waitForShutdown returned, whose pool was open before and
    -- behind that call, and which Run closed after it.
    pub run-Ends :
        (l : Loader Config) (version commit : Text) (w : d.World)
        → Ends (opened w) (run h l version commit w)
    unfolding run
    run-Ends l version commit w =
        let w1 = print_error z "warning: .env not loaded: " (h.load_dotenv w) in
        configured-Ends version commit (load l (h.environ w1)) w1 (opened w) (
          print_error-opened laws h keeps _ (h.load_dotenv w).0 (h.load_dotenv w).1
          ∙ keeps.load_dotenv_keeps w)
