-- ===== src/Http/Races/Tests.antt =====
-- Two requests under one key that run at the same time on the server in memory.
use native.Mathlib.Decide.{dec_lt, ℕ_discrete}
use checkout_saga.Common.{some, ℕ, ◌≡◌, refl, [], ◌∷◌, inl, inr, ◌⊎◌, arith, true, false}
use checkout_saga.Common.Int.{pos, wrap64, ◌+ℤ◌, ◌*ℤ◌}
use checkout_saga.Common.Text.{codes, text_eq, has_prefix, trim_prefix, cut}
use checkout_saga.Common.Text.Trim.{trim_space}
use checkout_saga.Common.Decimal.{decimal, decimal2, all_digits, is_digit, parse_int}
use checkout_saga.GoError.{ok, is_error}
use checkout_saga.Money.{
  format_cents, money_string, unsign, is_digits, pad_minor, total_cents, parse_parts, parse_money,
  mul, unmarshal_json, trim_quotes,
}
use checkout_saga.Order.{Order, placed, new_order, sum_items, subtotal, status_of, status_text}
use checkout_saga.UseCase.{create, store_order}
use checkout_saga.Jwt.{parse}
use checkout_saga.Jwt.Plain.{library}
use checkout_saga.Repo.{
  scan_order, order_of_row, attach_items, read_items, scan_item, check_rows, item_args,
  exec_results, order_repo,
}
use checkout_saga.Repo.Interleaving.{
  returned, after_begin, after_insert, batch_result, after_batch, after_row, after_items,
  after_commit, after_begin_tx, after_insert_order, advance,
}
use checkout_saga.Repo.Interleaving.Shared.{shared}
use checkout_saga.Repo.Interleaving.Shared.Laws.{shared-IsServer, no_orders, no_orders_lem}
use checkout_saga.Repo.Interleaving.Shared.Schedule.{Run, begin_run, turn, turns}
use checkout_saga.Http.Wire.{decode_order, read_raw_items, to_entity_items}
use checkout_saga.Http.Middleware.{auth_middleware, bearer_token, trace_id_of}
use checkout_saga.Http.Handlers
use checkout_saga.Http.Router.{route_of, dispatch, serve, create_order}
use checkout_saga.Http.Sample.{manager, moment, json, v, post}
use checkout_saga.Http.Calls.{answer, order_of, serve-order_of}
use checkout_saga.Http.Races.{IsPost, answers_agree}
use checkout_saga.Http.Requests.{key_of}
use checkout_saga.Repo
use checkout_saga.Repo.Memory.{memory}
use checkout_saga.Repo.Memory.Laws.{no_rows_yet}

abbrev orders : ℕ → Order
unfolding codes
orders i =
    placed (b'u' ∷ []) (codes "key")
      (record { id = []; order_id = []; product_id = b'p' ∷ []; quantity = pos 2; price = pos 1050 }
        ∷ [])
      (pos 2100)

abbrev stored : Order
unfolding codes
stored = record {
  id = b'x' ∷ [];
  user_id = b'u' ∷ [];
  total_amount = pos 2100;
  status = status_of (status_text (orders 0).status);
  idempotency_key = codes "key";
  version = pos 0;
  created_at = 1;
  updated_at = 1;
  items =
      record {
        id = b'p' ∷ [];
        order_id = b'x' ∷ [];
        product_id = b'p' ∷ [];
        quantity = pos 2;
        price = pos 1050;
      }
      ∷ [];
}

-- Request 1 waits for request 0, and then meets its key.
abbrev over : Run orders
over = turns orders (begin_run orders) (0 ∷ 1 ∷ 0 ∷ 1 ∷ 0 ∷ 0 ∷ 0 ∷ 0 ∷ 1 ∷ 0 ∷ 1 ∷ 1 ∷ 1 ∷ 1 ∷ [])

runs : Unit {0}
unfolding wrap64 ◌+ℤ◌ ◌*ℤ◌ codes text_eq has_prefix trim_prefix cut trim_space decimal decimal2
    all_digits is_digit parse_int format_cents money_string unsign is_digits pad_minor total_cents
    parse_parts parse_money is_error status_of status_text item_args exec_results scan_order
    order_of_row attach_items read_items scan_item check_rows after_begin after_insert batch_result
    after_batch after_row after_items after_commit after_begin_tx after_insert_order advance shared
    turn dec_lt ℕ_discrete create store_order new_order sum_items subtotal mul unmarshal_json
    trim_quotes Handlers.create parse decode_order read_raw_items to_entity_items auth_middleware
    bearer_token trace_id_of route_of dispatch serve json post order_of stored orders
runs = tt

winner : over.last.pc 0 ≡ returned (ok (stored, true))
unfolding runs
winner = refl

loser : over.last.pc 1 ≡ returned (ok (stored, false))
unfolding runs
loser = refl

posts :
    (i : ℕ)
    → IsPost library manager json v shared shared-IsServer (λ _. moment) (λ _. post) orders i
unfolding runs
posts i = record { route = refl; order = refl }

answers_agree_example :
    ((answer (ok (stored, true))).body ≡ (answer (ok (stored, false))).body)
    × (((answer (ok (stored, true))).status ≡ 200) ⊎ ((answer (ok (stored, false))).status ≡ 200))
answers_agree_example =
    answers_agree library manager json v shared shared-IsServer (λ _. moment) (λ _. post) orders 2
      no_orders over.steps over.last 0 1 (ok (stored, true)) (ok (stored, false)) no_orders_lem
      over.reach (λ h. omega (arith, h)) (posts 0) (posts 1) refl winner loser (inr refl) (inl refl)

ordered : order_of library manager json v moment post ≡ some (orders 0)
unfolding runs
ordered = refl

routed : route_of post.method post.path ≡ create_order
unfolding runs
routed = refl

serve-order_of_example :
    ((orders 0).idempotency_key ≡ key_of post)
    × ((serve (order_repo memory) library manager json v moment post no_rows_yet).0.reply
        ≡ answer (Repo.create memory (orders 0) no_rows_yet).0)
    × ((serve (order_repo memory) library manager json v moment post no_rows_yet).1
        ≡ (Repo.create memory (orders 0) no_rows_yet).1)
serve-order_of_example =
    serve-order_of library manager json v (order_repo memory) moment post (orders 0) no_rows_yet
      routed ordered
