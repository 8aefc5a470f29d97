-- ===== src/Http/Retries.antt =====
-- Retries of POST /orders across any sequence of requests to the order service
-- (internal/order/controller/http over the use cases and the repository).
use checkout_saga.Common.{◌≡◌, ◌⊎◌, refl, sym, ap, ◌∙◌, subst, Bool, arith, inl, inr, Bool-cases}
use checkout_saga.Common.Int.{ℤ}
use checkout_saga.GoError.{Error, Result, ok, err}
use checkout_saga.Order.{Order, new_order}
use checkout_saga.Order.Guards.{new_order-IsPlaced}
use checkout_saga.UseCase.{CreateOrderCommand, store_order}
use checkout_saga.UseCase
use checkout_saga.Common.Text.{Text, has_prefix}
use checkout_saga.Jwt.{Manager, parse}
use checkout_saga.Jwt.Golang.{TokenLibrary}
use checkout_saga.Repo.{order_repo}
use checkout_saga.Repo
use checkout_saga.Repo.Driver.{PgDriver}
use checkout_saga.Repo.Postgres.{IsPostgres}
use checkout_saga.Repo.Replays.{Run, here, next, create_idempotent}
use checkout_saga.Checkout.{store_order-ok}
use checkout_saga.Http.Wire.{
  Context, with_user_id, data_body, order_payload, new_order_response, Request, Reply, Decoder,
  Validator,
}
use checkout_saga.Http.Handlers.{write_use_case_error, reply_created}
use checkout_saga.Http.Router.{
  Route, login, create_order, get_order, unrouted, route_of, Moment, dispatch, serve,
}
use checkout_saga.Http.Middleware.{
  Handler, auth_middleware, authenticated, auth_header, bearer_prefix, bearer_token,
}
use checkout_saga.Http.Requests.{
  key_of, command, Posted, unauthorized, rejected, accepted, auth_middleware-Posted,
}

abbrev pub IsSuccess : Reply → Type 0
IsSuccess reply = (reply.status ≡ 200) ⊎ (reply.status ≡ 201)

error-fails : (e : Error) → IsSuccess (write_use_case_error e) → ⊥
unfolding write_use_case_error
error-fails e (inl h) = ground arith
error-fails e (inr h) = ground arith

pub reply_created-success :
    (result : Result (Order × Bool))
    → IsSuccess (reply_created result)
    → (o : Order) × (b : Bool) × (result ≡ ok (o, b))
reply_created-success (err e) h = absurd (error-fails e h)
reply_created-success (ok (o, b)) h = (o, b, refl)

module _ (d : PgDriver) (pg : IsPostgres d) (lib : TokenLibrary) (m : Manager) (json : Decoder)
    (v : Validator) where
  open d use {State}
  open pg use {committed}

  -- The call of the repository behind a successful reply to a request with this key.
  record Stored (r : Request) (s : State) (end : Reply × State) : Type 0 where
    order : Order
    result : Order
    created : Bool
    key : order.idempotency_key ≡ key_of r
    called : (Repo.create d order s).0 ≡ ok (result, created)
    left : end.1 ≡ (Repo.create d order s).1
    replied : end.0 ≡ reply_created (ok (result, created))

  Posted-Stored :
      (now : ℤ) (r : Request) (s : State) (end : Reply × State)
      → Posted (order_repo d) lib m json v now r s end
      → IsSuccess end.0
      → Stored r s end
  unfolding UseCase.create store_order
  Posted-Stored now r s _ (unauthorized k) (inl h) = absurd (omega (arith, k, h))
  Posted-Stored now r s _ (unauthorized k) (inr h) = absurd (omega (arith, k, h))
  Posted-Stored now r s _ (rejected k) (inl h) = absurd (omega (arith, k, h))
  Posted-Stored now r s _ (rejected k) (inr h) = absurd (omega (arith, k, h))
  Posted-Stored now r s _ (accepted user items p key decoded valid) h =
      let cmd = command user r items in
      let placed = new_order cmd.user_id cmd.idempotency_key cmd.items in
      let (o, b, made) = reply_created-success (UseCase.create (order_repo d) cmd s).0 h in
      let (order, is_placed, called) = store_order-ok d pg placed s o b made in
      record {
        order = order;
        result = o;
        created = b;
        key =
            ap (λ (x : Order). x.idempotency_key)
              (new_order-IsPlaced cmd.user_id cmd.idempotency_key cmd.items order is_placed).built;
        called = called;
        left = ap (λ x. (store_order (order_repo d) x s).1) is_placed;
        replied = ap reply_created made;
      }

  store_order-Run :
      {s : State} (placed : Result Order) (t : State)
      → Run d pg s t
      → Run d pg s (store_order (order_repo d) placed t).1
  unfolding store_order
  store_order-Run (err e) t run = run
  store_order-Run (ok order) t run = next run order

  Posted-Run :
      {s : State} (now : ℤ) (r : Request) (t : State) (end : Reply × State)
      → Posted (order_repo d) lib m json v now r t end
      → Run d pg s t
      → Run d pg s end.1
  unfolding UseCase.create
  Posted-Run now r t _ (unauthorized k) run = run
  Posted-Run now r t _ (rejected k) run = run
  Posted-Run now r t _ (accepted user items p key decoded valid) run = store_order-Run _ t run

  -- States that any number of requests of any kind lead to.
  pub data Served (s : State) : State → Type 0 where
    idle : Served s s
    request :
        {t : State}
        → Served s t
        → (moment : Moment) (r : Request)
        → Served s (serve (order_repo d) lib m json v moment r t).1

  authenticated-keeps :
      (inner : Handler State) (ctx : Context) (r : Request) (t : State) (parsed : Result Text)
      → ((ctx : Context) → (inner ctx r t).1 ≡ t)
      → (authenticated lib m inner ctx r parsed t).1 ≡ t
  authenticated-keeps inner ctx r t (err e) keeps = refl
  authenticated-keeps inner ctx r t (ok user) keeps = keeps (with_user_id ctx user)

  auth_middleware-keeps :
      (now : ℤ) (inner : Handler State) (ctx : Context) (r : Request) (t : State)
      → ((ctx : Context) → (inner ctx r t).1 ≡ t)
      → (auth_middleware lib m now inner ctx r t).1 ≡ t
  unfolding auth_middleware
  auth_middleware-keeps now inner ctx r t keeps =
      elim (Bool-cases (has_prefix (r.header auth_header) bearer_prefix)) [
        | inl bearer ↦
            rw bearer (authenticated-keeps inner ctx r t (parse lib m now (bearer_token r)) keeps)
        | inr missing ↦ rw missing refl
      ]

  dispatch-Run :
      {s : State} (moment : Moment) (route : Route) (ctx : Context) (r : Request) (t : State)
      → Run d pg s t
      → Run d pg s (dispatch (order_repo d) lib m json v moment route ctx r t).1
  unfolding dispatch
  dispatch-Run moment login ctx r t run = run
  dispatch-Run moment create_order ctx r t run =
      Posted-Run moment.now r t _
        (auth_middleware-Posted (order_repo d) lib m json v moment.now ctx r t) run
  dispatch-Run moment (get_order id) ctx r t run =
      subst (Run d pg _) (sym (auth_middleware-keeps moment.now _ ctx r t (λ ctx. refl))) run
  dispatch-Run moment (unrouted status) ctx r t run = run

  pub Served-Run : {s s' : State} → Served s s' → Run d pg s s'
  unfolding serve
  Served-Run idle = here
  Served-Run (request {t} served moment r) =
      dispatch-Run moment (route_of r.method r.path) _ r t (Served-Run served)

  serve-Stored :
      (moment : Moment) (r : Request) (s : State)
      → route_of r.method r.path ≡ create_order
      → IsSuccess (serve (order_repo d) lib m json v moment r s).0.reply
      → Stored r s (
        (serve (order_repo d) lib m json v moment r s).0.reply,
        (serve (order_repo d) lib m json v moment r s).1,
      )
  unfolding serve dispatch
  serve-Stored moment r s route = rw route (
      Posted-Stored moment.now r s _
        (auth_middleware-Posted (order_repo d) lib m json v moment.now _ r s))

  -- A POST /orders that is answered with 200 or 201 behind a POST with the same key that was,
  -- after any sequence of requests to the service and whatever it asks for itself, gets 200 with
  -- the same body and changes nothing in the tables.
  pub serve_idempotent :
      (moment moment' : Moment) (r r' : Request) (s s2 : State)
      → route_of r.method r.path ≡ create_order
      → route_of r'.method r'.path ≡ create_order
      → key_of r' ≡ key_of r
      → IsSuccess (serve (order_repo d) lib m json v moment r s).0.reply
      → Served (serve (order_repo d) lib m json v moment r s).1 s2
      → IsSuccess (serve (order_repo d) lib m json v moment' r' s2).0.reply
      → ((serve (order_repo d) lib m json v moment' r' s2).0.reply.status ≡ 200)
        × ((serve (order_repo d) lib m json v moment' r' s2).0.reply.body
            ≡ (serve (order_repo d) lib m json v moment r s).0.reply.body)
        × (committed (serve (order_repo d) lib m json v moment' r' s2).1 ≡ committed s2)
  serve_idempotent moment moment' r r' s s2 route route' same first served second =
      let a = serve-Stored moment r s route first in
      let b = serve-Stored moment' r' s2 route' second in
      let (result, created, kept) =
        create_idempotent d pg a.order b.order s s2 a.result b.result a.created b.created a.called
          (subst (λ x. Run d pg x s2) a.left (Served-Run served)) (b.key ∙ same ∙ sym a.key)
          b.called in
      (
        ap (λ (x : Reply). x.status) b.replied
            ∙ ap (λ c. (reply_created (ok (b.result, c))).status) created,
        ap (λ (x : Reply). x.body) b.replied
            ∙ ap (λ o. data_body (order_payload (new_order_response o))) result
            ∙ sym (ap (λ (x : Reply). x.body) a.replied),
        ap committed b.left ∙ kept,
      )
