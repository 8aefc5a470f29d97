-- ===== src/Checkout/Tests.antt =====
-- The whole create path over the in-memory driver.
use checkout_saga.Common.{◌≡◌, refl, true, [], ◌∷◌}
use checkout_saga.Common.Int.{pos, wrap64, ◌+ℤ◌, ◌*ℤ◌}
use checkout_saga.Common.Text.Trim.{trim_space}
use checkout_saga.Common.Decimal.{decimal, decimal2, all_digits, is_digit, parse_int}
use checkout_saga.Money.{
  format_cents, money_string, unsign, is_digits, pad_minor, total_cents, parse_parts, parse_money,
  mul,
}
use checkout_saga.Common.Text.{codes, text_eq, has_prefix, trim_prefix, cut}
use checkout_saga.GoError.{ok, is_error}
use checkout_saga.Order.{Order, pending, status_of, status_text, new_order, sum_items, subtotal}
use checkout_saga.UseCase.{CreateOrderCommand, create, store_order}
use checkout_saga.Repo
use checkout_saga.Repo.{order_repo}
use checkout_saga.Repo.Memory.{memory}
use checkout_saga.Repo.Memory.Laws.{memory_lem, no_rows_yet}
use checkout_saga.Checkout.{IsCheckedOut, create-IsCheckedOut}

abbrev command : CreateOrderCommand
command = record {
  user_id = b'u' ∷ [];
  idempotency_key = b'k' ∷ [];
  items =
      record { id = []; order_id = []; product_id = b'p' ∷ []; quantity = pos 2; price = pos 1050 }
      ∷ [];
}

abbrev created : Order
created = record {
  id = b'x' ∷ [];
  user_id = b'u' ∷ [];
  total_amount = pos 2100;
  status = status_of (status_text pending);
  idempotency_key = b'k' ∷ [];
  version = pos 0;
  created_at = 1;
  updated_at = 1;
  items =
      record {
        id = b'p' ∷ [];
        order_id = b'x' ∷ [];
        product_id = b'p' ∷ [];
        quantity = pos 2;
        price = pos 1050;
      }
      ∷ [];
}

created_first : (create (order_repo memory) command no_rows_yet).0 ≡ ok (created, true)
unfolding wrap64 ◌+ℤ◌ ◌*ℤ◌ codes text_eq has_prefix trim_prefix cut trim_space decimal decimal2
    all_digits is_digit parse_int format_cents money_string unsign is_digits pad_minor total_cents
    parse_parts parse_money is_error status_of status_text Repo.create Repo.begun Repo.deferred
    Repo.decide Repo.insert_row Repo.reload Repo.replay Repo.insert_items Repo.item_args
    Repo.exec_results Repo.commit_loaded Repo.finish Repo.load_order_by_id Repo.load_order_by_key
    Repo.scan_order Repo.order_of_row Repo.attach_items Repo.read_items Repo.scan_item
    Repo.check_rows Repo.get_by_id memory create store_order new_order sum_items subtotal mul
created_first = refl

create-IsCheckedOut_example : IsCheckedOut command created
create-IsCheckedOut_example =
    create-IsCheckedOut memory memory_lem.0 command no_rows_yet created created_first
