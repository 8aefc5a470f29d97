-- ===== src/Http/Calls.antt =====
-- POST /orders as its one call of OrderRepo.Create: which order a request stores does not depend on the
-- database, and its reply is made from what the call returns.
use checkout_saga.Common.{
  ◌≡◌, refl, sym, ap, ◌∙◌, subst, List, [], ◌∷◌, true, false, if◌then◌else◌, Option, none, some,
  Bool, some-injective,
}
use checkout_saga.Common.Int.{ℤ}
use checkout_saga.Common.Text.{Text, is_empty, has_prefix}
use checkout_saga.GoError.{Error, lit, Result, ok, err, foreign, annotate}
use checkout_saga.Order.{Order, new_order}
use checkout_saga.Order.Guards.{new_order-IsPlaced}
use checkout_saga.UseCase.{OrderRepo, CreateOrderCommand, store_order}
use checkout_saga.UseCase
use checkout_saga.Jwt.{Manager, parse}
use checkout_saga.Jwt.Golang.{TokenLibrary}
use checkout_saga.Http.Wire.{
  Context, with_user_id, Request, Reply, Decoder, Validator, CreateOrderItem, decode_order,
  write_error,
}
use checkout_saga.Http.Middleware.{
  auth_header, bearer_prefix, bearer_token, trace_id_of, with_trace_id, auth_middleware,
  authenticated,
}
use checkout_saga.Http.Handlers.{reply_created, create, create_decoded, create_validated}
use checkout_saga.Http.Router.{create_order, route_of, Moment, dispatch, serve}
use checkout_saga.Http.Requests.{key_of}

-- A repository that stores nothing, and remembers the order that it is asked to store.
abbrev pub recorder : OrderRepo
recorder = record {
  Store = Option Order;
  create = λ order s. (err (foreign "not stored"), some order);
  get_by_id = λ id s. err (foreign "not stored");
}

-- The reply of POST /orders to what OrderRepo.Create returned.
abbrev pub answer : Result (Order × Bool) → Reply
answer r = reply_created (annotate "OrderUseCase.Create: " r)

module _ (lib : TokenLibrary) (m : Manager) (json : Decoder) (v : Validator) where
  -- The order that a request asks the repository to store.
  unfoldable pub order_of : Moment → Request → Option Order
  order_of moment r = (serve recorder lib m json v moment r none).1

  module _ (repo : OrderRepo) where
    open repo use {Store}

    -- A handler over the repository, next to its run over the recorder: it replies the same at once, or
    -- it replies to what storing the recorder's order returned.
    pub data OneCall (key : Text) (f : Store → Reply × Store) : Reply × Option Order → Type 0 where
      at_once : (reply : Reply) → ((s : Store) → f s ≡ (reply, s)) → OneCall key f (reply, none)
      calls :
          (reply : Reply) (order : Order)
          → order.idempotency_key ≡ key
          → ((s : Store) → f s ≡ (answer (repo.create order s).0, (repo.create order s).1))
          → OneCall key f (reply, some order)

    stored-OneCall :
        (cmd : CreateOrderCommand) (placed : Result Order)
        → new_order cmd.user_id cmd.idempotency_key cmd.items ≡ placed
        → OneCall cmd.idempotency_key
            (λ s. (reply_created (store_order repo placed s).0, (store_order repo placed s).1))
            (
              reply_created (store_order recorder placed none).0,
              (store_order recorder placed none).1,
            )
    unfolding store_order
    stored-OneCall cmd (err e) h = at_once _ (λ s. refl)
    stored-OneCall cmd (ok order) h =
        calls _ order
          (ap (λ (x : Order). x.idempotency_key)
            (new_order-IsPlaced cmd.user_id cmd.idempotency_key cmd.items order h).built)
          (λ s. refl)

    validated-OneCall :
        (ctx : Context) (r : Request) (items : List CreateOrderItem) (valid : Option Error)
        → OneCall
            (key_of r)
            (create_validated repo json v (key_of r) ctx items valid)
            (create_validated recorder json v (key_of r) ctx items valid none)
    unfolding UseCase.create
    validated-OneCall ctx r items (some e) = at_once _ (λ s. refl)
    validated-OneCall ctx r items none = stored-OneCall _ _ refl

    decoded-OneCall :
        (ctx : Context) (r : Request) (decoded : Result (List CreateOrderItem))
        → OneCall
            (key_of r)
            (create_decoded repo json v (key_of r) ctx decoded)
            (create_decoded recorder json v (key_of r) ctx decoded none)
    decoded-OneCall ctx r (err e) = at_once _ (λ s. refl)
    decoded-OneCall ctx r (ok items) = validated-OneCall ctx r items (v.order items)

    handled-OneCall :
        (ctx : Context) (r : Request)
        → OneCall (key_of r) (create repo json v ctx r) (create recorder json v ctx r none)
    unfolding create
    handled-OneCall ctx r = go (is_empty (key_of r))
      where
        missing : Reply
        missing =
            write_error 400 "missing_idempotency_key"
              (lit "Idempotency-Key header is required" ∷ [])

        go :
            (empty : Bool)
            → OneCall
                (key_of r)
                (λ s.
                  if empty
                  then (missing, s)
                  else create_decoded repo json v (key_of r) ctx (decode_order json r) s)
                (if empty
                  then (missing, none)
                  else create_decoded recorder json v (key_of r) ctx (decode_order json r) none)
        go true = at_once _ (λ s. refl)
        go false = decoded-OneCall ctx r (decode_order json r)

    parsed-OneCall :
        (ctx : Context) (r : Request) (parsed : Result Text)
        → OneCall
            (key_of r)
            (authenticated lib m (create repo json v) ctx r parsed)
            (authenticated lib m (create recorder json v) ctx r parsed none)
    parsed-OneCall ctx r (err e) = at_once _ (λ s. refl)
    parsed-OneCall ctx r (ok user) = handled-OneCall (with_user_id ctx user) r

    auth_middleware-OneCall :
        (now : ℤ) (ctx : Context) (r : Request)
        → OneCall
            (key_of r)
            (auth_middleware lib m now (create repo json v) ctx r)
            (auth_middleware lib m now (create recorder json v) ctx r none)
    unfolding auth_middleware
    auth_middleware-OneCall now ctx r = go (has_prefix (r.header auth_header) bearer_prefix)
      where
        missing : Reply
        missing =
            write_error 401 "missing_token"
              (lit "authorization header with a bearer token is required" ∷ [])

        parsed : Result Text
        parsed = parse lib m now (bearer_token r)

        go :
            (bearer : Bool)
            → OneCall
                (key_of r)
                (λ s.
                  if bearer
                  then authenticated lib m (create repo json v) ctx r parsed s
                  else (missing, s))
                (if bearer
                  then authenticated lib m (create recorder json v) ctx r parsed none
                  else (missing, none))
        go true = parsed-OneCall ctx r parsed
        go false = at_once _ (λ s. refl)

    called :
        {key : Text} (f : Store → Reply × Store) (p : Reply × Option Order) (order : Order)
        → OneCall key f p
        → p.1 ≡ some order
        → (order.idempotency_key ≡ key)
          × ((s : Store) → f s ≡ (answer (repo.create order s).0, (repo.create order s).1))
    called f p order (at_once reply h) e = cc
    called {key} f p order (calls reply o k h) e =
        let same : o ≡ order = some-injective e in
        (
          ap (λ (x : Order). x.idempotency_key) (sym same) ∙ k,
          λ s. subst (λ x. f s ≡ (answer (repo.create x s).0, (repo.create x s).1)) same (h s),
        )

    -- A POST /orders that asks for an order stores it in one call of OrderRepo.Create, whatever the
    -- repository: the order has the request's key, and the request is answered from what the call
    -- returned.
    pub serve-order_of :
        (moment : Moment) (r : Request) (order : Order) (s : Store)
        → route_of r.method r.path ≡ create_order
        → order_of moment r ≡ some order
        → (order.idempotency_key ≡ key_of r)
          × ((serve repo lib m json v moment r s).0.reply ≡ answer (repo.create order s).0)
          × ((serve repo lib m json v moment r s).1 ≡ (repo.create order s).1)
    unfolding order_of serve dispatch
    serve-order_of moment r order s route h =
        let ctx =
          with_trace_id (record { user_id = none; trace_id = none })
            (trace_id_of moment.random r) in
        let (key, all) =
          called (auth_middleware lib m moment.now (create repo json v) ctx r) _ order
            (auth_middleware-OneCall moment.now ctx r)
            (subst (λ x. (dispatch recorder lib m json v moment x ctx r none).1 ≡ some order) route
              h) in
        let same = ap (λ x. dispatch repo lib m json v moment x ctx r s) route ∙ all s in
        (key, ap (λ p. p.0) same, ap (λ p. p.1) same)
