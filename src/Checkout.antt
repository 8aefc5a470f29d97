-- ===== src/Checkout.antt =====
-- The order service's create path as a whole: OrderUseCase.Create (internal/order/usecase/order.go)
-- over the PostgreSQL repository (internal/order/repo).
mod Tests
use mathlib.Core.List.{Perm}
use checkout_saga.Common.{◌≡◌, ◌≢◌, refl, sym, ap, ◌∙◌, subst, Bool, true, [], map, All}
use checkout_saga.Common.Int.{pos, ◌≤ℤ◌, wrap64}
use checkout_saga.GoError.{annotate-eq-ok, Result, ok, err}
use checkout_saga.Order.{Order, pending, status_of, status_text, new_order}
use checkout_saga.Order.Guards.{IsOrderable, new_order-IsPlaced}
use checkout_saga.Order.States.{status_of-status_text}
use checkout_saga.Order.Total.{exact_total, new_order_total}
use checkout_saga.UseCase.{CreateOrderCommand, store_order, create}
use checkout_saga.Repo.{order_repo}
use checkout_saga.Repo
use checkout_saga.Repo.Driver.{PgDriver}
use checkout_saga.Repo.Postgres.{IsPostgres, SameUuid, uuid_digits}
use checkout_saga.Repo.Contents.{IsReadable, line, create-Agrees}

-- What a client gets for a command that created an order.
pub record IsCheckedOut (cmd : CreateOrderCommand) (o : Order) : Type 0 where
  pub user_id : SameUuid o.user_id cmd.user_id
  pub owner : cmd.user_id ≢ []
  pub key : o.idempotency_key ≡ cmd.idempotency_key
  pub status : o.status ≡ pending
  pub orderable : All IsOrderable cmd.items
  pub total : o.total_amount ≡ wrap64 (pos (exact_total cmd.items))
  pub positive : pos 1 ≤ℤ o.total_amount
  pub lines : All IsReadable cmd.items → Perm (map line o.items) (map line cmd.items)

module _ (d : PgDriver) (pg : IsPostgres d) where
  open d use {State}

  pub store_order-ok :
      (placed : Result Order) (s : State) (o : Order) (b : Bool)
      → (store_order (order_repo d) placed s).0 ≡ ok (o, b)
      → (order : Order) × (placed ≡ ok order) × ((Repo.create d order s).0 ≡ ok (o, b))
  unfolding store_order
  store_order-ok (err e) s o b h = cc
  store_order-ok (ok order) s o b h =
      (order, refl, annotate-eq-ok "OrderUseCase.Create: " (Repo.create d order s).0 h)

  -- When OrderUseCase.Create over the PostgreSQL repository reports an order as created, the
  -- command's owner is not empty and its items pass the checks of NewOrder, and the order has the
  -- command's owner, as a UUID, its key, the status PENDING, the exact sum of its items as an
  -- int64 for a positive total, and, where every price is below 10^17 cents, the command's lines
  -- in some order, their products as UUIDs.
  pub create-IsCheckedOut :
      (cmd : CreateOrderCommand) (s : State) (o : Order)
      → (create (order_repo d) cmd s).0 ≡ ok (o, true)
      → IsCheckedOut cmd o
  unfolding create
  create-IsCheckedOut cmd s o h =
      let (order, placed, stored) =
        store_order-ok (new_order cmd.user_id cmd.idempotency_key cmd.items) s o true h in
      let p = new_order-IsPlaced cmd.user_id cmd.idempotency_key cmd.items order placed in
      let a = create-Agrees d pg order s o stored in
      let total = new_order_total cmd.user_id cmd.idempotency_key cmd.items order placed in
      let b = p.built in
      let user : order.user_id ≡ cmd.user_id = ap (λ (x : Order). x.user_id) b in
      let same_items : order.items ≡ cmd.items = ap (λ (x : Order). x.items) b in
      let amount : o.total_amount ≡ order.total_amount = a.total in
      record {
        user_id = a.user_id ∙ ap uuid_digits user;
        owner = p.user;
        key = a.key ∙ ap (λ (x : Order). x.idempotency_key) b;
        status =
            a.status
            ∙ ap (λ (x : Order). status_of (status_text x.status)) b
            ∙ status_of-status_text.0;
        orderable = p.orderable;
        total = amount ∙ total.0;
        positive =
            subst (λ z. pos 1 ≤ℤ z) (sym (amount ∙ ap (λ (x : Order). x.total_amount) b))
              p.positive;
        lines =
            subst (λ l. All IsReadable l → Perm (map line o.items) (map line l)) same_items a.lines;
      }
