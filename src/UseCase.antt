-- ===== src/UseCase.antt =====
-- internal/order/usecase: the repository interface (contracts.go) and the use cases (order.go).
-- A repository is a value of the interface's methods over a store; a call returns its result and
-- the store that it leaves. The context argument carries no data that these methods read.
use checkout_saga.Common.{Bool, List}
use checkout_saga.Common.Text.{Text}
use checkout_saga.GoError.{Result, ok, err, prefixed, annotate}
use checkout_saga.Order.{Order, OrderItem, new_order}

-- usecase.OrderRepo
pub record OrderRepo : Type 1 where
  pub Store : Type 0
  pub create : Order → Store → Result (Order × Bool) × Store
  pub get_by_id : Text → Store → Result Order

-- CreateOrderCommand
pub record CreateOrderCommand : Type 0 where
  pub user_id : Text
  pub idempotency_key : Text
  pub items : List OrderItem

module _ (repo : OrderRepo) where
  open repo use {Store}

  -- The second half of OrderUseCase.Create: the call of the repository.
  unfoldable pub store_order : Result Order → Store → Result (Order × Bool) × Store
  store_order (err e) s = (err (prefixed "OrderUseCase.Create: " e), s)
  store_order (ok order) s =
      let (stored, s') = repo.create order s in (annotate "OrderUseCase.Create: " stored, s')

  -- OrderUseCase.Create
  unfoldable pub create : CreateOrderCommand → Store → Result (Order × Bool) × Store
  create cmd s = store_order (new_order cmd.user_id cmd.idempotency_key cmd.items) s

  -- OrderUseCase.GetByID
  unfoldable pub get_by_id : Text → Store → Result Order
  get_by_id id s = annotate "OrderUseCase.GetByID: " (repo.get_by_id id s)
