-- ===== src/Postgres/Pgxpool.antt =====
-- What pkg/postgres uses of pgxpool, of its logger and of the context's timers: a parameter of the
-- model. A call returns its result and the world that it leaves; the context is part of the world.
use checkout_saga.Common.{◌≡◌, List, ◌∷◌, Option}
use checkout_saga.Common.Int.{ℤ}
use checkout_saga.Common.Text.{Text}
use checkout_saga.GoError.{Error, Result, ok, err}

-- The fields of pgxpool.Config that New sets, and what ParseConfig read besides.
pub record PoolConfig (Parsed : Type 0) : Type 0 where
  pub parsed : Parsed
  pub max_conns : ℤ
  pub min_conns : ℤ
  pub max_conn_lifetime : ℤ
  pub max_conn_idle_time : ℤ

-- The fields of the warning "postgres connect attempt failed".
pub record Warning : Type 0 where
  pub attempt : ℤ
  pub max_attempts : ℤ
  pub next_backoff : ℤ
  pub error : Error

pub record PoolDriver : Type 1 where
  pub World : Type 0
  pub Pool : Type 0
  pub Parsed : Type 0
  pub Logger : Type 0
  pub Stat : Type 0
  pub parse_config : Text → Result Parsed
  pub new_with_config : PoolConfig Parsed → World → Result Pool × World
  -- Ping under the caller's context, or under one with a timeout
  pub ping : Option ℤ → Pool → World → Result (Unit {0}) × World
  pub close : Pool → World → World
  pub stat : Pool → World → Stat
  -- QueryRow("SELECT version()").Scan
  pub query_version : Pool → World → Result Text × World
  -- zap.NewNop()
  pub nop : Logger
  pub warn : Logger → Warning → World → World
  -- select on time.After(backoff) and ctx.Done(): the context's error where that came first
  pub wait : ℤ → World → Option Error × World

-- The pools that are open, and what each call does to them.
pub record IsPoolDriver (d : PoolDriver) : Type 0 where
  pub opened : d.World → List d.Pool
  pub new_ok :
      (cfg : PoolConfig d.Parsed) (w w' : d.World) (pool : d.Pool)
      → d.new_with_config cfg w ≡ (ok pool, w')
      → opened w' ≡ pool ∷ opened w
  pub new_err :
      (cfg : PoolConfig d.Parsed) (w w' : d.World) (e : Error)
      → d.new_with_config cfg w ≡ (err e, w')
      → opened w' ≡ opened w
  pub ping_keeps :
      (timeout : Option ℤ) (pool : d.Pool) (w : d.World)
      → opened (d.ping timeout pool w).1 ≡ opened w
  pub close_newest :
      (pool : d.Pool) (w : d.World) (others : List d.Pool)
      → opened w ≡ pool ∷ others
      → opened (d.close pool w) ≡ others
  pub version_keeps : (pool : d.Pool) (w : d.World) → opened (d.query_version pool w).1 ≡ opened w
  pub warn_keeps :
      (logger : d.Logger) (x : Warning) (w : d.World) → opened (d.warn logger x w) ≡ opened w
  pub wait_keeps : (backoff : ℤ) (w : d.World) → opened (d.wait backoff w).1 ≡ opened w
