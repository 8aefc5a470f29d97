-- ===== src/Repo/Interleaving/Tests/Reading.antt =====
-- A reader behind two calls of OrderRepo.Create that raced for one key.
use checkout_saga.Common.{arith, ◌≡◌, refl, ℕ, zero, suc, [], ◌∷◌, none, ◌≢◌, ◌⊎◌, subst}
use checkout_saga.GoError.{ok}
use checkout_saga.Repo.{load_order_by_id}
use checkout_saga.Repo.Interleaving.{idle}
use checkout_saga.Repo.Driver.{OrderRow}
use checkout_saga.Repo.Postgres.{Reads, find_id}
use checkout_saga.Repo.Loading.{IsStored}
use checkout_saga.Repo.Interleaving.Shared.Laws.{
  in_tx-Reads, shared-IsServer, no_orders, no_orders_lem,
}
use checkout_saga.Repo.Interleaving.Safety.{Reach-Inv}
use checkout_saga.Repo.Interleaving.Local.{Local}
use checkout_saga.Repo.Interleaving.Readers.{Origin, load_order_by_id-Origin}
use checkout_saga.Repo.Interleaving.Balance.{IsNew, IsBalanced, load_order_by_id-IsBalanced}
use checkout_saga.Order.{new_order, sum_items, subtotal}
use checkout_saga.Money.{mul}
use checkout_saga.Repo.Interleaving.Tests.{orders, stored, over, runs}
use checkout_saga.Common.Int.{wrap64, ◌+ℤ◌, ◌*ℤ◌}
use checkout_saga.Repo.Interleaving.Shared.{shared}

-- A reader behind both calls, in a transaction of its own.
unused : over.last.pc 5 ≡ idle
unfolding runs
unused = refl

reads : Reads (shared.in_tx 5 over.last.server) (shared-IsServer.view over.last.server).tables
reads = in_tx-Reads 5 over.last.server (
    subst
      (Local (orders 5) (shared-IsServer.view over.last.server).tables
        ((shared-IsServer.view over.last.server).own 5))
      unused
      ((Reach-Inv shared shared-IsServer orders 2 no_orders over.steps over.last no_orders_lem
          over.reach).local
        5))

found_whole : load_order_by_id (shared.in_tx 5 over.last.server) stored.id ≡ ok stored
unfolding runs load_order_by_id
found_whole = refl

load_order_by_id-Origin_example :
    (row : OrderRow) × IsStored row
      ((shared-IsServer.view over.last.server).tables.items row.id)
      stored
    × Origin orders
        (shared-IsServer.view no_orders).tables
        (shared-IsServer.view over.last.server).tables
        row
load_order_by_id-Origin_example =
    load_order_by_id-Origin shared shared-IsServer orders 2 no_orders over.steps over.last
      (shared.in_tx 5 over.last.server) stored.id stored no_orders_lem over.reach reads found_whole

-- Both orders are NewOrder's.
is_new : (i : ℕ) → IsNew (orders i)
unfolding new_order sum_items subtotal mul wrap64 ◌+ℤ◌ ◌*ℤ◌
is_new zero = record {
  user_id = b'u' ∷ [];
  key = b'k' ∷ [];
  items = (orders 0).items;
  built = refl;
  readable = (omega arith, tt);
}
is_new (suc i) = record {
  user_id = b'v' ∷ [];
  key = b'k' ∷ [];
  items = (orders 1).items;
  built = refl;
  readable = (omega arith, tt);
}

load_order_by_id-IsBalanced_example :
    (find_id stored.id (shared-IsServer.view no_orders).tables.orders ≢ none) ⊎ IsBalanced stored
load_order_by_id-IsBalanced_example =
    load_order_by_id-IsBalanced shared shared-IsServer orders 2 no_orders over.steps over.last
      (shared.in_tx 5 over.last.server) stored.id stored is_new no_orders_lem over.reach reads
      found_whole
