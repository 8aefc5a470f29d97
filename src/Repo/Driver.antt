-- ===== src/Repo/Driver.antt =====
-- What the repository uses of pgx and of PostgreSQL: a parameter of the model, with the documented
-- behaviour of the statements of order-postgres.go on the tables of
-- migrations/order/000001_orders.up.sql.
use checkout_saga.Common.{ℕ, List, Option}
use checkout_saga.Common.Int.{ℤ}
use checkout_saga.Common.Text.{Text}
use checkout_saga.GoError.{Error, Result}

-- The columns that selectOrderByID and selectOrderByIdempotencyKey return.
pub record OrderRow : Type 0 where
  pub id : Text
  pub user_id : Text
  pub total_text : Text
  pub status : Text
  pub idempotency_key : Text
  pub version : ℤ
  pub created_at : ℕ
  pub updated_at : ℕ

-- The columns that selectOrderItems returns.
pub record ItemRow : Type 0 where
  pub id : Text
  pub order_id : Text
  pub product_id : Text
  pub quantity : ℤ
  pub price_text : Text

-- pgx.Rows as its reader meets it: the result of Scan for each row, and rows.Err() at the end.
pub record Rows : Type 0 where
  pub scans : List (Result ItemRow)
  pub ended : Option Error

-- The interface `querier` with its three statements, at the moment of the query.
pub record Querier : Type 0 where
  pub order_by_id : Text → Result OrderRow
  pub order_by_key : Text → Result OrderRow
  pub items_of : Text → Result Rows

-- The arguments of insertOrderItem but the order's id.
pub record ItemArgs : Type 0 where
  pub product_id : Text
  pub quantity : ℤ
  pub price_text : Text

-- pgx.BatchResults: the result of each Exec, and that of Close.
pub record Batch : Type 0 where
  pub results : List (Result (Unit {0}))
  pub closed : Result (Unit {0})

pub record PgDriver : Type 1 where
  -- what is committed
  pub State : Type 0
  -- an open transaction
  pub Tx : Type 0
  pub begin : State → Result Tx
  -- insertOrder with RETURNING id, scanned
  pub insert_order : (user_id total_text status key : Text) → Tx → Result Text × Tx
  pub send_batch : (order_id : Text) → List ItemArgs → Tx → Batch × Tx
  pub in_tx : Tx → Querier
  pub on_pool : State → Querier
  pub commit : Tx → State → Result (Unit {0}) × State
  pub rollback : Tx → State → Result (Unit {0}) × State
