-- ===== src/Repo/Interleaving/Tests.antt =====
-- Two calls of OrderRepo.Create that race for one key on the server in memory, and the instances of the
-- theorems.
mod Reading
use native.Mathlib.Decide.{dec_lt, ℕ_discrete}
use checkout_saga.Common.{
  Bool, arith, ◌≡◌, refl, ℕ, zero, suc, true, false, [], ◌∷◌, none, some, ◌≤◌, ◌*◌, ◌≢◌, ◌⊎◌, subst,
}
use checkout_saga.GoError.{Result, ok, is_error}
use checkout_saga.Repo.{
  create, load_order_by_id, scan_order, order_of_row, attach_items, read_items, scan_item,
  check_rows, item_args, exec_results,
}
use checkout_saga.Repo.Idempotency.{Holds}
use checkout_saga.Repo.Interleaving.{
  settled, idle, returned, after_begin, after_insert, batch_result, after_batch, after_row,
  after_items, after_commit, after_begin_tx, after_insert_order, advance,
}
use checkout_saga.Repo.Driver.{OrderRow}
use checkout_saga.Repo.Postgres.{Reads}
use checkout_saga.Repo.Loading.{IsStored}
use checkout_saga.Repo.Ledger.{ledger, History}
use checkout_saga.Repo.Interleaving.Shared.Laws.{
  in_tx-Reads, shared-IsServer, no_orders, no_orders_lem,
}
use checkout_saga.Repo.Interleaving.Safety.{Reach-Inv, Reach-Serial}
use checkout_saga.Repo.Interleaving.Local.{Local}
use checkout_saga.Repo.Interleaving.Atomic.{settled_calls, Reach-History}
use checkout_saga.Repo.Interleaving.Readers.{Origin, load_order_by_id-Origin}
use checkout_saga.Repo.Interleaving.Shared.Pool.{shared_pool}
use checkout_saga.Repo.Interleaving.Deadlock.{CanStep, WaitsForKey, WaitsForConnection, no_deadlock}
use checkout_saga.Repo.Interleaving.Serial.{Serial}
use checkout_saga.Repo.Interleaving.Invariant.{logged, AreOnce}
use checkout_saga.Repo.Interleaving.Races.{returned_agree}
use checkout_saga.Repo.Interleaving.Completion.{Completed, Reach-Completed}
use checkout_saga.Common.Int.{pos, wrap64, ◌+ℤ◌, ◌*ℤ◌}
use checkout_saga.Common.Text.Trim.{trim_space}
use checkout_saga.Common.Decimal.{decimal, decimal2, all_digits, is_digit, parse_int}
use checkout_saga.Money.{
  format_cents, money_string, unsign, is_digits, pad_minor, total_cents, parse_parts, parse_money,
}
use checkout_saga.Common.Text.{codes, text_eq, has_prefix, trim_prefix, cut}
use checkout_saga.Order.{Order, placed, status_of, status_text}
use checkout_saga.Repo.Interleaving.Shared.Schedule.{Run, turn, turns, begin_run}
use checkout_saga.Repo.Interleaving.Shared.{shared}

-- Call 0 asks for two pieces, every other call for something else under the same key.
abbrev pub orders : ℕ → Order
orders zero =
    placed (b'u' ∷ []) (b'k' ∷ [])
      (record { id = []; order_id = []; product_id = b'p' ∷ []; quantity = pos 2; price = pos 1050 }
        ∷ [])
      (pos 2100)
orders (suc i) =
    placed (b'v' ∷ []) (b'k' ∷ [])
      (record { id = []; order_id = []; product_id = b'q' ∷ []; quantity = pos 1; price = pos 1 }
        ∷ [])
      (pos 1)

-- What is stored for call 0.
abbrev pub stored : Order
stored = record {
  id = b'x' ∷ [];
  user_id = b'u' ∷ [];
  total_amount = pos 2100;
  status = status_of (status_text (orders 0).status);
  idempotency_key = b'k' ∷ [];
  version = pos 0;
  created_at = 1;
  updated_at = 1;
  items =
      record {
        id = b'p' ∷ [];
        order_id = b'x' ∷ [];
        product_id = b'p' ∷ [];
        quantity = pos 2;
        price = pos 1050;
      }
      ∷ [];
}

-- Both begin, call 0 inserts, and call 1 waits for it.
abbrev pub contended : Run orders
contended = turns orders (begin_run orders) (0 ∷ 1 ∷ 0 ∷ 1 ∷ [])

-- Call 0 goes on to Commit; call 1 meets the key, and both run to their end.
abbrev pub over : Run orders
over = turns orders contended (0 ∷ 0 ∷ 0 ∷ 0 ∷ 1 ∷ 0 ∷ 1 ∷ 1 ∷ 1 ∷ 1 ∷ [])

pub runs : Unit {0}
unfolding wrap64 ◌+ℤ◌ ◌*ℤ◌ codes text_eq has_prefix trim_prefix cut trim_space decimal decimal2
    all_digits is_digit parse_int format_cents money_string unsign is_digits pad_minor total_cents
    parse_parts parse_money is_error status_of status_text item_args exec_results scan_order
    order_of_row attach_items read_items scan_item check_rows after_begin after_insert batch_result
    after_batch after_row after_items after_commit after_begin_tx after_insert_order advance shared
    turn dec_lt ℕ_discrete
runs = tt

waits : contended.steps ≡ 3
unfolding runs
waits = refl

winner : over.last.pc 0 ≡ returned (ok (stored, true))
unfolding runs
winner = refl

loser : over.last.pc 1 ≡ returned (ok (stored, false))
unfolding runs
loser = refl

Reach-Serial_example :
    Serial orders
      (shared-IsServer.view no_orders).tables
      over.last.log
      (shared-IsServer.view over.last.server).tables
    × AreOnce over.last.log
    × ((i : ℕ) → logged i over.last.log ≡ settled (over.last.pc i))
Reach-Serial_example =
    Reach-Serial shared shared-IsServer orders 2 no_orders over.steps over.last no_orders_lem
      over.reach

returned_agree_example :
    (stored ≡ stored)
    × Holds (shared-IsServer.view over.last.server).tables (orders 0).idempotency_key stored
    × ((◌≡◌ {A = Bool} true false) ⊎ (◌≡◌ {A = Bool} false false))
returned_agree_example =
    returned_agree shared shared-IsServer orders 2 no_orders over.steps over.last 0 1 stored stored
      true false no_orders_lem over.reach (λ h. omega (arith, h)) refl winner loser

-- Call 1 waits for call 0 here.
no_deadlock_example :
    ((r : Result (Order × Bool)) × (contended.last.pc 1 ≡ returned r))
    ⊎ CanStep shared shared-IsServer shared_pool.0 orders 2 contended.last 1
    ⊎ WaitsForKey shared shared-IsServer shared_pool.0 orders 2 contended.last 1
    ⊎ WaitsForConnection shared shared-IsServer shared_pool.0 orders 2 contended.last 1
no_deadlock_example =
    no_deadlock shared shared-IsServer shared_pool.0 orders 2 no_orders contended.steps
      contended.last 1 no_orders_lem shared_pool.1 contended.reach

Reach-History_example :
    History
      (ledger (shared-IsServer.view no_orders).tables)
      (settled_calls orders over.last.log)
      (ledger (shared-IsServer.view over.last.server).tables)
Reach-History_example =
    Reach-History orders shared shared-IsServer 2 no_orders over.steps over.last no_orders_lem
      over.reach

Reach-Completed_example :
    (contended.steps ≤ 7 * 2) × Completed shared orders 2 no_orders contended.last
Reach-Completed_example =
    Reach-Completed shared orders 2 shared-IsServer shared_pool.0 no_orders contended.steps
      contended.last no_orders_lem shared_pool.1 contended.reach
