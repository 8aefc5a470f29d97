-- ===== src/Postgres.antt =====
-- pkg/postgres: the connection pool's wrapper (postgres.go) and its options (options.go).
-- A duration is its number of nanoseconds, an int64; a nil *pgxpool.Pool is `none`.
pub mod Pgxpool
pub mod Connect
pub mod Termination
pub mod Backoff
pub mod Lifecycle
pub mod Scripted
mod Tests
use checkout_saga.Common.{
  ℕ, zero, suc, ◌*◌, ◌^◌, String, ◌≡◌, Bool, true, false, List, [], ◌∷◌, ◌++◌, Option, none, some,
  if◌then◌else◌,
}
use checkout_saga.Common.Int.{ℤ, pos, negsuc, pos_part, ltb_ℤ, eq_ℤ, wrap64, ◌+ℤ◌, ◌*ℤ◌}
use checkout_saga.Common.Text.{Text}
use checkout_saga.GoError.{
  Part, lit, number, Error, base, wrap, plain, pool_not_initialized, Result, ok, err, prefixed,
  annotate,
}
use checkout_saga.Postgres.Pgxpool.{PoolConfig, Warning, PoolDriver}

-- time.Second, in nanoseconds
abbrev pub second : ℕ
second = 10 ^ 9

-- postgres.Postgres
pub record Postgres (d : PoolDriver) : Type 0 where
  pub pool : Option d.Pool
  pub max_conns : ℤ
  pub min_conns : ℤ
  pub conn_attempts : ℤ
  pub conn_timeout : ℤ
  pub retry_backoff : ℤ
  pub max_conn_lifetime : ℤ
  pub max_conn_idle_time : ℤ
  pub logger : d.Logger

module _ (d : PoolDriver) where
  open d use {World, Pool, Logger, Parsed}

  -- postgres.Option
  abbrev pub PoolOption : Type 0
  PoolOption = Postgres d → Postgres d

  -- The options of options.go
  abbrev pub max_conns : ℤ → PoolOption
  max_conns n p = record p { max_conns = n }

  abbrev pub min_conns : ℤ → PoolOption
  min_conns n p = record p { min_conns = n }

  abbrev pub conn_attempts : ℤ → PoolOption
  conn_attempts n p = record p { conn_attempts = n }

  abbrev pub conn_timeout : ℤ → PoolOption
  conn_timeout t p = record p { conn_timeout = t }

  abbrev pub retry_backoff : ℤ → PoolOption
  retry_backoff t p = record p { retry_backoff = t }

  abbrev pub max_conn_lifetime : ℤ → PoolOption
  max_conn_lifetime t p = record p { max_conn_lifetime = t }

  abbrev pub max_conn_idle_time : ℤ → PoolOption
  max_conn_idle_time t p = record p { max_conn_idle_time = t }

  -- `none` is a nil Logger
  abbrev pub with_logger : Option Logger → PoolOption
  with_logger none p = p
  with_logger (some l) p = record p { logger = l }

  -- The literal at the start of New.
  abbrev pub defaults : Postgres d
  defaults = record {
    pool = none;
    max_conns = pos 25;
    min_conns = pos 5;
    conn_attempts = pos 5;
    conn_timeout = pos (5 * second);
    retry_backoff = pos second;
    max_conn_lifetime = pos (3600 * second);
    max_conn_idle_time = pos (1800 * second);
    logger = d.nop;
  }

  -- The loop over the options.
  unfoldable pub apply_options : List PoolOption → Postgres d → Postgres d
  apply_options [] p = p
  apply_options (opt ∷ opts) p = apply_options opts (opt p)

  -- The end of tryConnect behind its Ping: a pool that does not answer is closed.
  abbrev pub keep_or_close : Pool → Result (Unit {0}) × World → Result Pool × World
  keep_or_close pool (err e, w) = (err (prefixed "ping: " e), d.close pool w)
  keep_or_close pool (ok _, w) = (ok pool, w)

  -- tryConnect behind NewWithConfig.
  abbrev pub verify : Postgres d → Result Pool × World → Result Pool × World
  verify p (err e, w) = (err (prefixed "new pool: " e), w)
  verify p (ok pool, w) = keep_or_close pool (d.ping (some p.conn_timeout) pool w)

  -- tryConnect
  unfoldable pub try_connect : Postgres d → PoolConfig Parsed → World → Result Pool × World
  try_connect p cfg w = verify p (d.new_with_config cfg w)

  -- %d
  abbrev pub shown_int : ℤ → List Part
  shown_int (pos n) = number n ∷ []
  shown_int (negsuc n) = lit "-" ∷ number (suc n) ∷ []

  -- The error behind the loop; %w with a nil error prints %!w(<nil>) and wraps nothing.
  abbrev pub all_failed : ℤ → Option Error → Error
  all_failed attempts (some e) =
      wrap
        (lit "postgres.connectWithRetry: failed after " ∷ shown_int attempts
          ++ lit " attempts: " ∷ [])
        e []
  all_failed attempts none = plain (
      lit "postgres.connectWithRetry: failed after " ∷ shown_int attempts
      ++ lit " attempts: %!w(<nil>)" ∷ [])

  abbrev pub cancelled : Error → Error
  cancelled e = prefixed "postgres.connectWithRetry: ctx cancelled: " e

  -- The select at the end of a round; `rest` is the rounds behind it.
  abbrev pub wake : (World → Result Pool × World) → Option Error × World → Result Pool × World
  wake rest (none, w) = rest w
  wake rest (some c, w) = (err (cancelled c), w)

  -- A round of the loop behind its tryConnect.
  abbrev pub after_attempt :
      Postgres d
      → (attempt backoff : ℤ) → (Error → World → Result Pool × World)
      → Result Pool × World
      → Result Pool × World
  after_attempt p attempt backoff rest (ok pool, w) = (ok pool, w)
  after_attempt p attempt backoff rest (err e, w) =
      let w1 =
        d.warn p.logger
          (record {
            attempt = attempt;
            max_attempts = p.conn_attempts;
            next_backoff = backoff;
            error = e;
          })
          w in
      elim (eq_ℤ attempt p.conn_attempts) [
        | true ↦ (err (all_failed p.conn_attempts (some e)), w1)
        | false ↦ wake (rest e) (d.wait backoff w1)
      ]

  -- The loop of connectWithRetry, by the number of rounds that its condition still allows: with
  -- `left` rounds, `attempt + left` is one more than connAttempts.
  unfoldable pub retry :
      Postgres d
      → PoolConfig Parsed
      → (left : ℕ) (attempt backoff : ℤ) → Option Error
      → World
      → Result Pool × World
  retry p cfg zero attempt backoff last w = (err (all_failed p.conn_attempts last), w)
  retry p cfg (suc left) attempt backoff last w =
      after_attempt p attempt backoff
        (λ e. retry p cfg left (wrap64 (attempt +ℤ pos 1)) (wrap64 (backoff *ℤ pos 2)) (some e))
        (try_connect p cfg w)

  -- connectWithRetry
  unfoldable pub connect_with_retry : Postgres d → PoolConfig Parsed → World → Result Pool × World
  connect_with_retry p cfg w = retry p cfg (pos_part p.conn_attempts) (pos 1) p.retry_backoff none w

  -- MinConns lowered to MaxConns.
  abbrev pub clamp_min_conns : Postgres d → Postgres d
  clamp_min_conns p =
      if ltb_ℤ p.max_conns p.min_conns then record p { min_conns = p.max_conns } else p

  -- The pool's configuration as New leaves it, for the receiver after the clamp.
  abbrev pub pool_config : Parsed → Postgres d → PoolConfig Parsed
  pool_config parsed p = record {
    parsed = parsed;
    max_conns = p.max_conns;
    min_conns = p.min_conns;
    max_conn_lifetime = p.max_conn_lifetime;
    max_conn_idle_time = p.max_conn_idle_time;
  }

  -- The end of New: the pool stored in the receiver.
  abbrev pub with_pool : Postgres d → Result Pool × World → Result (Postgres d) × World
  with_pool p (err e, w) = (err e, w)
  with_pool p (ok pool, w) = (ok (record p { pool = some pool }), w)

  -- New behind ParseConfig.
  abbrev pub open_pool : Postgres d → Result Parsed → World → Result (Postgres d) × World
  open_pool p (err e) w = (err e, w)
  open_pool p (ok parsed) w = with_pool p (connect_with_retry p (pool_config parsed p) w)

  -- New
  unfoldable pub new : Text → List PoolOption → World → Result (Postgres d) × World
  new url opts w =
      open_pool (clamp_min_conns (apply_options opts defaults))
        (annotate "postgres.New: parse config: " (d.parse_config url)) w

  -- Health
  unfoldable pub health : Postgres d → World → Result (Unit {0}) × World
  health p w = elim p.pool [
    | none ↦ (err (base pool_not_initialized), w)
    | some pool ↦ let (pinged, w1) = d.ping none pool w in (annotate "postgres.Health: " pinged, w1)
  ]

  -- Version
  unfoldable pub version : Postgres d → World → Result Text × World
  version p w = elim p.pool [
    | none ↦ (err (base pool_not_initialized), w)
    | some pool ↦
        let (read, w1) = d.query_version pool w in (annotate "postgres.Version: " read, w1)
  ]

  -- Stat
  unfoldable pub stat : Postgres d → World → Option d.Stat
  stat p w = elim p.pool [ none ↦ none | some pool ↦ some (d.stat pool w) ]

  -- Close
  unfoldable pub close : Postgres d → World → World
  close p w = elim p.pool [ none ↦ w | some pool ↦ d.close pool w ]
