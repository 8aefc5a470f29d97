-- ===== src/Http/Effects.antt =====
-- POST /orders over the PostgreSQL repository: what its reply tells about the tables
-- (internal/order/controller/http, internal/order/usecase and internal/order/repo).
mod Tests
use checkout_saga.Common.{◌≡◌, refl, ap, ◌∙◌, subst, ◌≤◌, ℕ, Bool, some, arith, inl, inr, ◌⊎◌}
use checkout_saga.Common.Text.{Text}
use checkout_saga.GoError.{Error, prefixed, is_error, Result, ok, err, annotate}
use checkout_saga.Order.{Order, new_order}
use checkout_saga.Order.Guards.{new_order-IsPlaced}
use checkout_saga.UseCase.{CreateOrderCommand, store_order}
use checkout_saga.UseCase
use checkout_saga.Jwt.{Manager}
use checkout_saga.Jwt.Golang.{TokenLibrary}
use checkout_saga.Repo.{order_repo}
use checkout_saga.Repo
use checkout_saga.Repo.Driver.{OrderRow, PgDriver}
use checkout_saga.Repo.Postgres.{Tables, find_key, IsPostgres}
use checkout_saga.Repo.Loading.{IsStored}
use checkout_saga.Repo.Creating.{IsCreated, Outcome, created, replayed, failed, unknown}
use checkout_saga.Repo.Outcomes.{create-OutcomeAt}
use checkout_saga.Repo.Failures.{IsForeign, CommitsForeign, create-FailsAt}
use checkout_saga.Http.Wire.{
  Request, Reply, Decoder, Validator, write_json, order_payload, new_order_response,
}
use checkout_saga.Http.Handlers.{internal_error, write_use_case_error, reply_created}
use checkout_saga.Http.Router.{Moment, create_order, route_of, dispatch, serve}
use checkout_saga.Http.Requests.{
  key_of, command, Posted, unauthorized, rejected, accepted, auth_middleware-Posted,
}

abbrev shows : ℕ → Order → Reply
shows status o = write_json status (order_payload (new_order_response o))

-- What a reply to a request under a key tells about the tables before and behind the request.
pub data Effect (key : Text) (t t' : Tables) (reply : Reply) : Type 0 where
  placed :
      (order o : Order)
      → order.idempotency_key ≡ key
      → IsCreated order t t' o
      → reply ≡ shows 201 o
      → Effect key t t' reply
  repeated :
      (o : Order) (row : OrderRow)
      → find_key key t.orders ≡ some row
      → IsStored row (t.items row.id) o
      → t' ≡ t
      → reply ≡ shows 200 o
      → Effect key t t' reply
  refused : 400 ≤ reply.status → t' ≡ t → Effect key t t' reply
  uncertain :
      (order o : Order)
      → order.idempotency_key ≡ key
      → IsCreated order t t' o
      → reply ≡ internal_error
      → Effect key t t' reply

error-status : (e : Error) → 400 ≤ (write_use_case_error e).status
unfolding write_use_case_error
error-status e = ground arith

error-reply :
    (r : Result (Order × Bool)) (e : Error)
    → r ≡ err e
    → reply_created (annotate "OrderUseCase.Create: " r)
      ≡ write_use_case_error (prefixed "OrderUseCase.Create: " e)
error-reply r e h = ap (λ x. reply_created (annotate "OrderUseCase.Create: " x)) h

-- An error of Commit reaches the client as a 500.
foreign-reply :
    (e : Error)
    → IsForeign e
    → write_use_case_error (prefixed "OrderUseCase.Create: " e) ≡ internal_error
unfolding write_use_case_error is_error
foreign-reply e f = ground (arith, f.not_found, f.not_order, f.not_money)

Outcome-Effect :
    (order : Order) (key : Text) (t t' : Tables) (r : Result (Order × Bool))
    → order.idempotency_key ≡ key
    → Outcome order t t' r
    → ((e : Error) → r ≡ err e → (t' ≡ t) ⊎ IsForeign e)
    → Effect key t t' (reply_created (annotate "OrderUseCase.Create: " r))
Outcome-Effect order key t t' r same (created o e c) fails =
    placed order o same c (ap (λ x. reply_created (annotate "OrderUseCase.Create: " x)) e)
Outcome-Effect order key t t' r same (replayed o row e found stored kept) fails =
    repeated o row (subst (λ k. find_key k t.orders ≡ some row) same found) stored kept
      (ap (λ x. reply_created (annotate "OrderUseCase.Create: " x)) e)
Outcome-Effect order key t t' r same (failed e0 e kept) fails =
    refused (rw (error-reply r e0 e) (error-status _)) kept
Outcome-Effect order key t t' r same (unknown e0 o e c) fails = elim (fails e0 e) [
  | inl kept ↦ refused (rw (error-reply r e0 e) (error-status _)) kept
  | inr f ↦ uncertain order o same c (error-reply r e0 e ∙ foreign-reply e0 f)
]

module _ (d : PgDriver) (pg : IsPostgres d) (foreign_commits : CommitsForeign d)
    (lib : TokenLibrary) (m : Manager) (json : Decoder) (v : Validator) where
  open d use {State}
  open pg use {committed}

  stored-Effect :
      (cmd : CreateOrderCommand) (built : Result Order) (s : State)
      → new_order cmd.user_id cmd.idempotency_key cmd.items ≡ built
      → Effect cmd.idempotency_key
          (committed s)
          (committed (store_order (order_repo d) built s).1)
          (reply_created (store_order (order_repo d) built s).0)
  unfolding store_order
  stored-Effect cmd (err e) s h = refused (error-status (prefixed "OrderUseCase.Create: " e)) refl
  stored-Effect cmd (ok order) s h =
      let p = new_order-IsPlaced cmd.user_id cmd.idempotency_key cmd.items order h in
      Outcome-Effect order cmd.idempotency_key (committed s) (committed (Repo.create d order s).1)
        (Repo.create d order s).0 (ap (λ (x : Order). x.idempotency_key) p.built)
        (create-OutcomeAt d pg order s) (create-FailsAt d pg foreign_commits order s)

  Posted-Effect :
      (moment : Moment) (r : Request) (s : State) (end : Reply × State)
      → Posted (order_repo d) lib m json v moment.now r s end
      → Effect (key_of r) (committed s) (committed end.1) end.0
  unfolding UseCase.create
  Posted-Effect moment r s _ (unauthorized k) = refused (omega (arith, k)) refl
  Posted-Effect moment r s _ (rejected k) = refused (omega (arith, k)) refl
  Posted-Effect moment r s _ (accepted user items p keyed decoded valid) =
      stored-Effect (command user r items) _ s refl

  -- Where the errors of Commit are not the domain's, the reply to a POST /orders tells what it did: 201
  -- shows the one new order that it stored under its key, 200 shows the order that the key had, with
  -- nothing changed, and any other reply is at least 400 with nothing changed, or 500 with one new
  -- order stored.
  pub serve-Effect :
      (moment : Moment) (r : Request) (s : State)
      → route_of r.method r.path ≡ create_order
      → Effect
          (key_of r)
          (committed s)
          (committed (serve (order_repo d) lib m json v moment r s).1)
          (serve (order_repo d) lib m json v moment r s).0.reply
  unfolding serve dispatch
  serve-Effect moment r s route = rw route (
      Posted-Effect moment r s _
        (auth_middleware-Posted (order_repo d) lib m json v moment.now _ r s))
