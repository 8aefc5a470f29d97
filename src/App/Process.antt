-- ===== src/App/Process.antt =====
-- What internal/order/app/app.go uses of the process, of net/http and of pgxpool's statistics besides
-- pkg/postgres and pkg/logger: a parameter of the model. All calls share one world.
use checkout_saga.Common.{String, ◌≡◌, Option, List}
use checkout_saga.Common.Int.{ℤ}
use checkout_saga.Common.Text.{Text}
use checkout_saga.GoError.{Part, Error, Result}
use checkout_saga.Logger.Backend.{Level, Field, ZapConfig, Zap}
use checkout_saga.Postgres.{Postgres}
use checkout_saga.Postgres.Pgxpool.{PoolDriver, IsPoolDriver}
use checkout_saga.Jwt.{Manager}
use checkout_saga.Httpserver.{Server}

-- What the select of waitForShutdown receives: the end of the context, or a value from Notify, which
-- is `none` where the channel is closed and empty.
pub data Woken : Type 0 where
  signalled : Woken
  notified : Option Error → Woken

-- The router as its parts: the pool of the repository behind its use case, the manager, the logger.
pub record Wiring (d : PoolDriver) (z : Zap d.World) : Type 0 where
  pub pool : Postgres d
  pub manager : Manager
  pub log : z.Logger

pub record Host (d : PoolDriver) (z : Zap d.World) : Type 1 where
  -- godotenv.Load, and the variables of the process
  pub load_dotenv : d.World → Option Error × d.World
  pub environ : d.World → String → Option Text
  -- signal.NotifyContext, and its stop
  pub notify_context : d.World → d.World
  pub stop : d.World → d.World
  -- a logger.Logger as the pool's logger
  pub pool_logger : z.Logger → d.Logger
  -- the goroutine of Server.Start, the select, and http.Server.Shutdown with the server's timeout
  pub start : Server (Wiring d z) → d.World → d.World
  pub select : Server (Wiring d z) → d.World → Woken × d.World
  pub shutdown : Server (Wiring d z) → d.World → Result (Unit {0}) × d.World
  pub max_conns : d.Stat → ℤ
  pub total_conns : d.Stat → ℤ
  pub idle_conns : d.Stat → ℤ

-- None of the calls opens or closes a pool.
pub record IsHost {d : PoolDriver} {z : Zap d.World} (laws : IsPoolDriver d) (h : Host d z)
    : Type 0 where
  pub load_dotenv_keeps : (w : d.World) → laws.opened (h.load_dotenv w).1 ≡ laws.opened w
  pub notify_context_keeps : (w : d.World) → laws.opened (h.notify_context w) ≡ laws.opened w
  pub stop_keeps : (w : d.World) → laws.opened (h.stop w) ≡ laws.opened w
  pub start_keeps :
      (s : Server (Wiring d z)) (w : d.World) → laws.opened (h.start s w) ≡ laws.opened w
  pub select_keeps :
      (s : Server (Wiring d z)) (w : d.World) → laws.opened (h.select s w).1 ≡ laws.opened w
  pub shutdown_keeps :
      (s : Server (Wiring d z)) (w : d.World) → laws.opened (h.shutdown s w).1 ≡ laws.opened w
  pub build_keeps :
      (config : ZapConfig z.LevelEncoder z.TimeEncoder z.Rest) (w : d.World)
      → laws.opened (z.build config 1 w).1 ≡ laws.opened w
  pub write_keeps :
      (l : z.Logger) (level : Level) (msg : Text) (fields : List Field) (w : d.World)
      → laws.opened (z.write l level msg fields w) ≡ laws.opened w
  pub sync_keeps : (l : z.Logger) (w : d.World) → laws.opened (z.sync l w).1 ≡ laws.opened w
  pub write_stderr_keeps :
      (text : List Part) (w : d.World) → laws.opened (z.write_stderr text w).1 ≡ laws.opened w
