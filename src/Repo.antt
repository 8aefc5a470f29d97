-- ===== src/Repo.antt =====
-- internal/order/repo: the PostgreSQL repository (order-postgres.go) and its row mapping
-- (order-scan.go). The driver (pgx and the server behind it) is a parameter.
-- What goes to stderr (a failed Rollback, a failed Close after a failed Exec) is left out.
pub mod Driver
pub mod Postgres
pub mod Loading
pub mod Creating
pub mod Outcomes
pub mod Failures
pub mod Keys
pub mod Idempotency
pub mod Replays
pub mod Ledger
pub mod Contents
pub mod Absence
pub mod Progress
pub mod FirstCreate
pub mod Lookups
pub mod Memory
pub mod Interleaving
mod Tests
use checkout_saga.Common.{
  String, ℕ, Bool, true, false, List, [], ◌∷◌, ◌++◌, Option, none, some, map, if◌then◌else◌,
}
use checkout_saga.Common.Int.{ℤ, pos}
use checkout_saga.Common.Text.{Text}
use checkout_saga.GoError.{
  Error, base, foreign, prefixed, is_error, no_rows, order_not_found, Result, ok, err, ◌>>=◌,
  annotate,
}
use checkout_saga.Money.{parse_money, money_string}
use checkout_saga.Order.{Order, OrderItem, status_of, status_text}
use checkout_saga.UseCase.{OrderRepo}
use Driver.{OrderRow, ItemRow, Rows, Querier, ItemArgs, Batch, PgDriver}

unfoldable pub order_of_row : OrderRow → ℤ → Order
order_of_row row total = record {
  id = row.id;
  user_id = row.user_id;
  total_amount = total;
  status = status_of row.status;
  idempotency_key = row.idempotency_key;
  version = row.version;
  created_at = row.created_at;
  updated_at = row.updated_at;
  items = [];
}

-- scanOrder, from the result of row.Scan
unfoldable pub scan_order : Result OrderRow → Result Order
scan_order (err e) =
    if is_error no_rows e then err (base order_not_found) else err (prefixed "scanOrder: " e)
scan_order (ok row) = do
  total ← annotate "scanOrder: total_amount: " (parse_money row.total_text)
  ok (order_of_row row total)

-- One round of the loop of attachItems: rows.Scan, ParseMoney, and the item.
unfoldable pub scan_item : Result ItemRow → Result OrderItem
scan_item (err e) = err (prefixed "attachItems: scan: " e)
scan_item (ok row) = do
  price ← annotate "attachItems: price: " (parse_money row.price_text)
  ok (record {
    id = row.id;
    order_id = row.order_id;
    product_id = row.product_id;
    quantity = row.quantity;
    price = price;
  })

-- `for rows.Next() { …; items = append(items, item) }`
unfoldable pub read_items : List OrderItem → List (Result ItemRow) → Result (List OrderItem)
read_items items [] = ok items
read_items items (scan ∷ scans) = scan_item scan >>= λ item. read_items (items ++ item ∷ []) scans

-- rows.Err()
unfoldable pub check_rows : Option Error → List OrderItem → Result (List OrderItem)
check_rows none items = ok items
check_rows (some e) items = err (prefixed "attachItems: rows: " e)

-- attachItems: the order with its lines
unfoldable pub attach_items : Querier → Order → Result Order
attach_items q order = do
  rows ← annotate "attachItems: query: " (q.items_of order.id)
  items ← read_items [] rows.scans
  checked ← check_rows rows.ended items
  ok (record order { items = checked })

-- loadOrderByID
unfoldable pub load_order_by_id : Querier → Text → Result Order
load_order_by_id q id = do
  order ← annotate "loadOrderByID: " (scan_order (q.order_by_id id))
  annotate "loadOrderByID: " (attach_items q order)

-- loadOrderByKey
unfoldable pub load_order_by_key : Querier → Text → Result Order
load_order_by_key q key = do
  order ← annotate "loadOrderByKey: " (scan_order (q.order_by_key key))
  annotate "loadOrderByKey: " (attach_items q order)

-- The arguments that insertItems queues for an item.
unfoldable pub item_args : OrderItem → ItemArgs
item_args item = record {
  product_id = item.product_id;
  quantity = item.quantity;
  price_text = money_string item.price;
}

-- `for range items { results.Exec() }`; a batch with fewer results than statements fails.
unfoldable pub exec_results : List OrderItem → List (Result (Unit {0})) → Result (Unit {0})
exec_results [] results = ok tt
exec_results (item ∷ items) [] = err (prefixed "insertItems: exec: " (foreign "no result"))
exec_results (item ∷ items) (err e ∷ results) = err (prefixed "insertItems: exec: " e)
exec_results (item ∷ items) (ok _ ∷ results) = exec_results items results

module _ (d : PgDriver) where
  open d use {State, Tx}

  -- insertItems: one batch; its results are read before it is closed.
  unfoldable pub insert_items : Tx → Text → List OrderItem → Result (Unit {0}) × Tx
  insert_items tx order_id items =
      let (batch, tx') = d.send_batch order_id (map item_args items) tx in
      (
        exec_results items batch.results
            >>= (λ _. annotate "insertItems: close batch: " batch.closed),
        tx',
      )

  -- tx.Commit at the end of both paths of Create, and what Create returns then.
  unfoldable pub finish : Order × Bool → Tx → State → Result (Order × Bool) × State
  finish result tx s =
      let (committed, s') = d.commit tx s in
      (annotate "OrderRepo.Create: commit: " committed >>= (λ _. ok result), s')

  -- A path that ends with an error before Commit.
  abbrev pub fail : Error → State → Result (Order × Bool) × State
  fail e s = (err e, s)

  -- An order that was loaded inside the transaction is returned once Commit succeeds.
  unfoldable pub commit_loaded :
      String → Bool → Result Order → Tx → State → Result (Order × Bool) × State
  commit_loaded before created (err e) tx s = fail (prefixed before e) s
  commit_loaded before created (ok order) tx s = finish (order, created) tx s

  -- The key is stored already: return the order of the first request.
  unfoldable pub replay : Text → Tx → State → Result (Order × Bool) × State
  replay key tx s =
      commit_loaded "OrderRepo.Create: load existing: " false (load_order_by_key (d.in_tx tx) key)
        tx s

  -- Read back, so that the caller gets what the database assigned.
  unfoldable pub reload : Text → Result (Unit {0}) × Tx → State → Result (Order × Bool) × State
  reload order_id (err e, tx) s = fail (prefixed "OrderRepo.Create: " e) s
  reload order_id (ok _, tx) s =
      commit_loaded "OrderRepo.Create: reload: " true (load_order_by_id (d.in_tx tx) order_id) tx s

  -- The switch on the error of the INSERT.
  unfoldable pub decide : Order → Result Text × Tx → State → Result (Order × Bool) × State
  decide order (ok order_id, tx) s = reload order_id (insert_items tx order_id order.items) s
  decide order (err e, tx) s =
      if is_error no_rows e
      then replay order.idempotency_key tx s
      else fail (prefixed "OrderRepo.Create: insert order: " e) s

  -- insertOrder with the order's columns
  unfoldable pub insert_row : Order → Tx → Result Text × Tx
  insert_row order tx =
      d.insert_order order.user_id (money_string order.total_amount) (status_text order.status)
        order.idempotency_key tx

  -- The deferred Rollback: it runs on every path behind a successful Begin.
  unfoldable pub deferred : Tx → Result (Order × Bool) × State → Result (Order × Bool) × State
  deferred tx (result, s) = (result, (d.rollback tx s).1)

  -- What Create does behind Begin.
  unfoldable pub begun : Order → Result Tx → State → Result (Order × Bool) × State
  begun order (err e) s = fail (prefixed "OrderRepo.Create: begin: " e) s
  begun order (ok tx) s = deferred tx (decide order (insert_row order tx) s)

  -- OrderRepo.Create
  unfoldable pub create : Order → State → Result (Order × Bool) × State
  create order s = begun order (d.begin s) s

  -- OrderRepo.GetByID
  unfoldable pub get_by_id : Text → State → Result Order
  get_by_id id s = annotate "OrderRepo.GetByID: " (load_order_by_id (d.on_pool s) id)

  -- The repository as the use cases see it.
  abbrev pub order_repo : OrderRepo
  order_repo = record { Store = State; create = create; get_by_id = get_by_id }
