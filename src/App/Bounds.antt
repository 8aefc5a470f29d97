-- ===== src/App/Bounds.antt =====
-- The pool and the token manager of a configured order service (internal/order/app/app.go).
use checkout_saga.Common.Int.{pos, ◌≤ℤ◌}
use checkout_saga.Common.Text.{Text}
use checkout_saga.Postgres.{Postgres}
use checkout_saga.Postgres.Pgxpool.{PoolDriver}
use checkout_saga.Config.{Config}

-- A pool that asks the database for 1 to 100 connections, and keeps at most 5 and no more than those
-- at the ready.
pub record IsModest {d : PoolDriver} (pg : Postgres d) : Type 0 where
  pub some_conns : pos 1 ≤ℤ pg.max_conns
  pub at_most : pg.max_conns ≤ℤ pos 100
  pub ordered : pg.min_conns ≤ℤ pg.max_conns
  pub few : pg.min_conns ≤ℤ pos 5
