-- ===== src/Http/Tests.antt =====
-- Requests to the order service over the in-memory driver and the readable tokens, and the theorems on
-- internal/order/controller/http at them.
use checkout_saga.Common.{List, All, map, arith, true, ◌≡◌, refl, [], ◌∷◌, inl, inr}
use checkout_saga.Common.Int.{pos, wrap64, ◌+ℤ◌, ◌*ℤ◌}
use checkout_saga.Common.Text.{codes, text_eq, has_prefix, trim_prefix, cut}
use checkout_saga.Common.Text.Trim.{trim_space}
use checkout_saga.Common.Decimal.{decimal, decimal2, all_digits, is_digit, parse_int}
use checkout_saga.GoError.{ok, ok, is_error}
use checkout_saga.Money.{
  format_cents, money_string, unsign, is_digits, pad_minor, total_cents, parse_parts, parse_money,
  mul, unmarshal_json, trim_quotes,
}
use checkout_saga.Order.{Order, placed, new_order, sum_items, subtotal, status_of, status_text}
use checkout_saga.UseCase.{create, store_order}
use checkout_saga.Jwt.{parse}
use checkout_saga.Jwt.Plain.{library, library-IsTokenLibrary}
use checkout_saga.Repo
use checkout_saga.Repo.{order_repo}
use checkout_saga.Repo.Memory.{memory}
use checkout_saga.Repo.Memory.Laws.{memory_lem, no_rows_yet}
use checkout_saga.Repo.Replays.{here}
use checkout_saga.Http.Lookups.{Finds, get_by_id-Finds}
use checkout_saga.Http.Wire.{
  CreateOrderItem, Request, decode_order, read_raw_items, to_entity_items, write_json,
  order_payload, new_order_response,
}
use checkout_saga.Http.Middleware.{auth_middleware, bearer_token, trace_id_of, Response}
use checkout_saga.Http.Handlers
use checkout_saga.Http.Router.{route_of, dispatch, serve, create_order}
use checkout_saga.Http.Protection.{Guarded, serve-Guarded, IsPlacedOrder, serve-IsPlacedOrder}
use checkout_saga.Http.Placement.{IsOrderly, serve_creates}
use checkout_saga.Http.Requests.{command}
use checkout_saga.Checkout.{IsCheckedOut}
use checkout_saga.Repo.FirstCreate.{IsStorable}
use checkout_saga.Repo.Memory.Laws.Accepting.{memory-Accepts, fresh_key}
use checkout_saga.Logger.Backend.{debug_level, info_level}
use checkout_saga.Http.Logs.{Line, serve_lines, dispatch_lines, auth_lines, create_lines}
use checkout_saga.Http.Tracing.{serve_lines-IsTraced}
use checkout_saga.Http.Tracing.Lines.{IsTraced}
use checkout_saga.Http.Sample.{manager, moment, json, v, post}
use checkout_saga.Http.Retries.{idle, serve_idempotent}

abbrev served : Request → memory.State → Response × memory.State
served r s = serve (order_repo memory) library manager json v moment r s

runs : Unit {0}
unfolding wrap64 ◌+ℤ◌ ◌*ℤ◌ codes text_eq has_prefix trim_prefix cut trim_space decimal decimal2
    all_digits is_digit parse_int format_cents money_string unsign is_digits pad_minor total_cents
    parse_parts parse_money is_error status_of status_text Repo.create Repo.begun Repo.deferred
    Repo.decide Repo.insert_row Repo.reload Repo.replay Repo.insert_items Repo.item_args
    Repo.exec_results Repo.commit_loaded Repo.finish Repo.load_order_by_id Repo.load_order_by_key
    Repo.scan_order Repo.order_of_row Repo.attach_items Repo.read_items Repo.scan_item
    Repo.check_rows Repo.get_by_id memory create store_order new_order sum_items subtotal mul
    unmarshal_json trim_quotes Handlers.create parse decode_order read_raw_items to_entity_items
    auth_middleware bearer_token trace_id_of route_of dispatch serve json post
runs = tt

posted : (served post no_rows_yet).0.reply.status ≡ 201
unfolding runs
posted = refl

routed : route_of post.method post.path ≡ create_order
unfolding runs
routed = refl

-- A second request under the same key.
posted_again : (served post (served post no_rows_yet).1).0.reply.status ≡ 200
unfolding runs
posted_again = refl

serve-Guarded_example :
    Guarded library manager
      (pos 5)
      post
      no_rows_yet
      ((served post no_rows_yet).0.reply, (served post no_rows_yet).1)
unfolding runs
serve-Guarded_example =
    serve-Guarded (order_repo memory) library library-IsTokenLibrary manager json v moment post
      no_rows_yet tt

serve-IsPlacedOrder_example :
    IsPlacedOrder
      (order_repo memory)
      library
      manager
      json
      v
      (pos 5)
      post
      (served post no_rows_yet).0.reply
serve-IsPlacedOrder_example =
    serve-IsPlacedOrder memory memory_lem.0 library library-IsTokenLibrary manager json v moment
      post no_rows_yet routed posted

serve_idempotent_example :
    ((served post (served post no_rows_yet).1).0.reply.status ≡ 200)
    × ((served post (served post no_rows_yet).1).0.reply.body
        ≡ (served post no_rows_yet).0.reply.body)
    × (memory_lem.0.committed (served post (served post no_rows_yet).1).1
        ≡ memory_lem.0.committed (served post no_rows_yet).1)
serve_idempotent_example =
    serve_idempotent memory memory_lem.0 library manager json v moment moment post post no_rows_yet
      (served post no_rows_yet).1 routed routed refl (inr posted) idle (inl posted_again)

abbrev two : List CreateOrderItem
two = record { product_id = b'p' ∷ []; quantity = pos 2; price = pos 1050 } ∷ []

abbrev order : Order
order = placed (b'u' ∷ []) (b'k' ∷ []) (to_entity_items two) (pos 2100)

abbrev stored : Order
unfolding to_entity_items
stored = record (placed (b'u' ∷ []) (b'k' ∷ []) [] (pos 2100)) {
  id = b'x' ∷ [];
  created_at = 1;
  updated_at = 1;
  items =
      record {
        id = b'p' ∷ [];
        order_id = b'x' ∷ [];
        product_id = b'p' ∷ [];
        quantity = pos 2;
        price = pos 1050;
      }
      ∷ [];
}

order_stored : (Repo.create memory order no_rows_yet).0 ≡ ok (stored, true)
unfolding runs
order_stored = refl

get_by_id-Finds_example : Finds stored (
    Handlers.get_by_id
      (order_repo memory)
      json
      v
      stored.id
      (Repo.create memory order no_rows_yet).1)
get_by_id-Finds_example =
    get_by_id-Finds memory memory_lem.0 json v order no_rows_yet
      (Repo.create memory order no_rows_yet).1 stored true memory_lem.1 order_stored here

-- The order that the request is for.
abbrev ordered : Order
unfolding codes to_entity_items
ordered = placed (b'u' ∷ []) (codes "key") (to_entity_items two) (pos 2100)

orderly : IsOrderly memory memory_lem.0 library manager json v moment post ordered
unfolding runs ordered
orderly = record {
  route = refl;
  bearer = refl;
  user = b'u' ∷ [];
  token = refl;
  key = refl;
  items = two;
  decoded = refl;
  valid = refl;
  built = refl;
}

storable : IsStorable ordered
unfolding ordered to_entity_items
storable = record { total = ground arith; prices = ground arith }

serve_creates_example :
    (o : Order) × ((served post no_rows_yet).0.reply
      ≡ write_json 201 (order_payload (new_order_response o)))
    × IsCheckedOut (command orderly.user post orderly.items) o
serve_creates_example =
    serve_creates memory memory_lem.0 library manager json v moment post ordered orderly no_rows_yet
      (fresh_key ordered.idempotency_key) (memory-Accepts ordered no_rows_yet) storable

-- Its two lines: the token has been read, and the order stored.
abbrev logged : List Line
logged = serve_lines Unit (order_repo memory) library manager json v moment post no_rows_yet

serve_lines-IsTraced_example : All (IsTraced (served post no_rows_yet).0.trace_id) logged
serve_lines-IsTraced_example =
    serve_lines-IsTraced Unit (order_repo memory) library manager json v moment post no_rows_yet

two_lines : map (λ (l : Line). l.level) logged ≡ debug_level ∷ info_level ∷ []
unfolding serve_lines dispatch_lines auth_lines create_lines runs
two_lines = refl
