-- ===== src/Repo/Tests.antt =====
-- The repository over the in-memory driver: a first request, a retry, and the instances of the
-- theorems.
use checkout_saga.Common.{◌≡◌, refl, Bool, true, false, [], ◌∷◌}
use checkout_saga.Common.Int.{pos, wrap64, ◌+ℤ◌, ◌*ℤ◌}
use checkout_saga.Common.Text.Trim.{trim_space}
use checkout_saga.Common.Decimal.{decimal, decimal2, all_digits, is_digit, parse_int}
use checkout_saga.Money.{
  format_cents, money_string, unsign, is_digits, pad_minor, total_cents, parse_parts, parse_money,
}
use checkout_saga.Common.Text.{codes, text_eq, has_prefix, trim_prefix, cut}
use checkout_saga.GoError.{ok, is_error}
use checkout_saga.Order.{Order, placed, status_of, status_text}
use checkout_saga.Repo.{
  create, begun, deferred, decide, insert_row, reload, replay, insert_items, item_args,
  exec_results, commit_loaded, finish, load_order_by_id, load_order_by_key, scan_order,
  order_of_row, attach_items, read_items, scan_item, check_rows, get_by_id,
}
use checkout_saga.Repo.Postgres.{IsPostgres}
use checkout_saga.Repo.Outcomes.{OutcomeAt, create-OutcomeAt}
use checkout_saga.Repo.Replays.{here, create_idempotent}
use checkout_saga.Repo.Progress.{create_replays}
use checkout_saga.Repo.Memory.{memory}
use checkout_saga.Repo.Memory.Laws.{memory_lem, memory-IsUp, no_rows_yet}

abbrev pg : IsPostgres memory
pg = memory_lem.0

abbrev order : Order
order =
    placed (b'u' ∷ []) (b'k' ∷ [])
      (record { id = []; order_id = []; product_id = b'p' ∷ []; quantity = pos 2; price = pos 1050 }
        ∷ [])
      (pos 2100)

-- What is stored for it.
abbrev stored : Order
stored = record {
  id = b'x' ∷ [];
  user_id = b'u' ∷ [];
  total_amount = pos 2100;
  status = status_of (status_text order.status);
  idempotency_key = b'k' ∷ [];
  version = pos 0;
  created_at = 1;
  updated_at = 1;
  items =
      record {
        id = b'p' ∷ [];
        order_id = b'x' ∷ [];
        product_id = b'p' ∷ [];
        quantity = pos 2;
        price = pos 1050;
      }
      ∷ [];
}

runs : Unit {0}
unfolding wrap64 ◌+ℤ◌ ◌*ℤ◌ codes text_eq has_prefix trim_prefix cut trim_space decimal decimal2
    all_digits is_digit parse_int format_cents money_string unsign is_digits pad_minor total_cents
    parse_parts parse_money is_error status_of status_text create begun deferred decide insert_row
    reload replay insert_items item_args exec_results commit_loaded finish load_order_by_id
    load_order_by_key scan_order order_of_row attach_items read_items scan_item check_rows get_by_id
    memory
runs = tt

first : (create memory order no_rows_yet).0 ≡ ok (stored, true)
unfolding runs
first = refl

-- A retry under the same key that asks for something else.
abbrev other_order : Order
other_order = record order { user_id = b'v' ∷ []; total_amount = pos 1; items = [] }

abbrev after_first : memory.State
after_first = (create memory order no_rows_yet).1

retried : (create memory other_order after_first).0 ≡ ok (stored, false)
unfolding runs
retried = refl

create-OutcomeAt_example : OutcomeAt memory pg order no_rows_yet (create memory order no_rows_yet)
create-OutcomeAt_example = create-OutcomeAt memory pg order no_rows_yet

create_idempotent_example :
    (stored ≡ stored)
    × (◌≡◌ {A = Bool} false false)
    × (pg.committed (create memory other_order after_first).1 ≡ pg.committed after_first)
create_idempotent_example =
    create_idempotent memory pg order other_order no_rows_yet after_first stored stored true false
      first here refl retried

create_replays_example : (create memory other_order after_first).0 ≡ ok (stored, false)
create_replays_example =
    create_replays memory pg order other_order no_rows_yet after_first stored true first here refl
      (memory-IsUp other_order after_first)
