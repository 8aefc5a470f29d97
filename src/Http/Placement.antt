-- ===== src/Http/Placement.antt =====
-- POST /orders as a whole, where nothing fails: internal/order/controller/http over the use case and
-- the repository.
use checkout_saga.Common.{◌≡◌, refl, ap, ◌∙◌, true, false, List, none}
use checkout_saga.Common.Text.{Text, is_empty, has_prefix}
use checkout_saga.GoError.{ok}
use checkout_saga.Order.{Order, new_order}
use checkout_saga.UseCase
use checkout_saga.UseCase.{CreateOrderCommand, store_order}
use checkout_saga.Repo
use checkout_saga.Repo.{order_repo}
use checkout_saga.Repo.Driver.{PgDriver}
use checkout_saga.Repo.Postgres.{find_key, IsPostgres}
use checkout_saga.Repo.FirstCreate.{Accepts, IsStorable, create_succeeds}
use checkout_saga.Checkout.{IsCheckedOut, create-IsCheckedOut}
use checkout_saga.Jwt.{Manager, parse}
use checkout_saga.Jwt.Golang.{TokenLibrary}
use checkout_saga.Http.Wire.{
  Context, with_user_id, Request, Decoder, Validator, CreateOrderItem, decode_order,
  to_entity_items, write_json, order_payload, new_order_response,
}
use checkout_saga.Http.Middleware.{auth_header, bearer_prefix, bearer_token, auth_middleware}
use checkout_saga.Http.Handlers.{create, reply_created}
use checkout_saga.Http.Router.{Moment, route_of, create_order, dispatch, serve}
use checkout_saga.Http.Requests.{key_of, command}

module _ (d : PgDriver) (pg : IsPostgres d) (lib : TokenLibrary) (m : Manager) (json : Decoder)
    (v : Validator) where
  -- A POST /orders with a token that Parse accepts, a key, and a body that is read and valid, and the
  -- order that NewOrder builds from it.
  pub record IsOrderly (moment : Moment) (r : Request) (order : Order) : Type 0 where
    pub route : route_of r.method r.path ≡ create_order
    pub bearer : has_prefix (r.header auth_header) bearer_prefix ≡ true
    pub user : Text
    pub token : parse lib m moment.now (bearer_token r) ≡ ok user
    pub key : is_empty (key_of r) ≡ false
    pub items : List CreateOrderItem
    pub decoded : decode_order json r ≡ ok items
    pub valid : v.order items ≡ none
    pub built : new_order user (key_of r) (to_entity_items items) ≡ ok order

  module _ (moment : Moment) (r : Request) (order : Order)
      (orderly : IsOrderly moment r order) where
    placed_command : CreateOrderCommand
    placed_command = command orderly.user r orderly.items

    command-ok :
        (s : d.State) (o : Order)
        → (Repo.create d order s).0 ≡ ok (o, true)
        → (UseCase.create (order_repo d) placed_command s).0 ≡ ok (o, true)
    unfolding UseCase.create store_order placed_command
    command-ok s o h = rw orderly.built (rw h refl)

    handler-reply :
        (ctx : Context) (s : d.State)
        → (create (order_repo d) json v (with_user_id ctx orderly.user) r s).0
          ≡ reply_created (UseCase.create (order_repo d) placed_command s).0
    unfolding create placed_command
    handler-reply ctx s = rw orderly.key (rw orderly.decoded (rw orderly.valid refl))

    dispatch-reply :
        (ctx : Context) (s : d.State)
        → (dispatch (order_repo d) lib m json v moment create_order ctx r s).0
          ≡ reply_created (UseCase.create (order_repo d) placed_command s).0
    unfolding dispatch auth_middleware
    dispatch-reply ctx s = rw orderly.bearer (rw orderly.token (handler-reply ctx s))

    -- A POST /orders with a token that Parse accepts, a key that is new, and a body that is read,
    -- valid and makes an order with amounts below 10^17 cents in size, in a state where the calls
    -- that Create makes for that order meet no error, is answered with 201 and the order, which
    -- has been checked out.
    pub serve_creates :
        (s : d.State)
        → find_key order.idempotency_key (pg.committed s).orders ≡ none
        → Accepts d pg order s
        → IsStorable order
        → (o : Order) × ((serve (order_repo d) lib m json v moment r s).0.reply
            ≡ write_json 201 (order_payload (new_order_response o)))
          × IsCheckedOut (command orderly.user r orderly.items) o
    unfolding serve placed_command
    serve_creates s fresh accepts storable =
        let (o, stored) = create_succeeds d pg order s accepts storable fresh in
        let done = command-ok s o stored in
        (
          o,
          rw orderly.route (dispatch-reply _ s ∙ ap reply_created done),
          create-IsCheckedOut d pg placed_command s o done,
        )
