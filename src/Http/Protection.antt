-- ===== src/Http/Protection.antt =====
-- The protected routes of the order service: who gets past the middleware, and what a reply 201 means
-- (internal/order/controller/http over the use cases and the repository).
use checkout_saga.Common.{
  ◌≡◌, ◌≢◌, refl, ap, Bool, true, false, List, none, arith, Bool-cases, inl, inr,
}
use checkout_saga.Common.Int.{ℤ}
use checkout_saga.Common.Text.{Text, has_prefix}
use checkout_saga.GoError.{Error, Result, ok, err}
use checkout_saga.Order.{Order}
use checkout_saga.UseCase.{OrderRepo}
use checkout_saga.UseCase
use checkout_saga.Jwt.{Manager, parse}
use checkout_saga.Jwt.Golang.{TokenLibrary, IsTokenLibrary}
use checkout_saga.Jwt.Tokens.{IsGenuine, parse-IsGenuine}
use checkout_saga.Repo.{order_repo}
use checkout_saga.Repo.Driver.{PgDriver}
use checkout_saga.Repo.Postgres.{IsPostgres}
use checkout_saga.Checkout.{IsCheckedOut, create-IsCheckedOut}
use checkout_saga.Http.Wire.{
  Context, Request, Reply, Decoder, Validator, CreateOrderItem, decode_order, write_json,
  order_payload, new_order_response,
}
use checkout_saga.Http.Middleware.{
  Handler, auth_header, bearer_prefix, bearer_token, auth_middleware, authenticated,
}
use checkout_saga.Http.Handlers.{write_use_case_error, reply_created}
use checkout_saga.Http.Router.{
  Route, login, create_order, get_order, unrouted, route_of, Moment, dispatch, serve,
}
use checkout_saga.Http.Requests.{
  command, Posted, unauthorized, rejected, accepted, auth_middleware-Posted,
}

abbrev pub IsProtected : Route → Type 0
IsProtected create_order = Unit
IsProtected (get_order id) = Unit
IsProtected _ = ⊥

-- A reply 401 with nothing changed, or a genuine token behind "Bearer ".
pub data Guarded (lib : TokenLibrary) (m : Manager) (now : ℤ) (r : Request) {S : Type 0} (s : S)
    : Reply × S → Type 0 where
  refused : {reply : Reply} → reply.status ≡ 401 → Guarded lib m now r s (reply, s)
  passed :
      {end : Reply × S} (user : Text)
      → has_prefix (r.header auth_header) bearer_prefix ≡ true
      → IsGenuine lib m now (bearer_token r) user
      → Guarded lib m now r s end

module _ (lib : TokenLibrary) (laws : IsTokenLibrary lib) (m : Manager) {S : Type 0} where
  authenticated-Guarded :
      (now : ℤ) (next : Handler S) (ctx : Context) (r : Request) (s : S) (parsed : Result Text)
      → has_prefix (r.header auth_header) bearer_prefix ≡ true
      → parse lib m now (bearer_token r) ≡ parsed
      → Guarded lib m now r s (authenticated lib m next ctx r parsed s)
  authenticated-Guarded now next ctx r s (err e) b p = refused refl
  authenticated-Guarded now next ctx r s (ok user) b p =
      passed user b (parse-IsGenuine lib laws m now (bearer_token r) user p)

  auth_middleware-Guarded :
      (now : ℤ) (next : Handler S) (ctx : Context) (r : Request) (s : S)
      → Guarded lib m now r s (auth_middleware lib m now next ctx r s)
  unfolding auth_middleware
  auth_middleware-Guarded now next ctx r s =
      elim (Bool-cases (has_prefix (r.header auth_header) bearer_prefix)) [
        | inl bearer ↦
            rw bearer (
              authenticated-Guarded now next ctx r s (parse lib m now (bearer_token r)) bearer refl)
        | inr missing ↦ rw missing (refused refl)
      ]

module _ (repo : OrderRepo) (lib : TokenLibrary) (laws : IsTokenLibrary lib) (m : Manager)
    (json : Decoder) (v : Validator) where
  open repo use {Store}

  dispatch-Guarded :
      (moment : Moment) (route : Route) (ctx : Context) (r : Request) (s : Store)
      → IsProtected route
      → Guarded lib m moment.now r s (dispatch repo lib m json v moment route ctx r s)
  unfolding dispatch
  dispatch-Guarded moment login ctx r s h = absurd h
  dispatch-Guarded moment create_order ctx r s h =
      auth_middleware-Guarded lib laws m moment.now _ ctx r s
  dispatch-Guarded moment (get_order id) ctx r s h =
      auth_middleware-Guarded lib laws m moment.now _ ctx r s
  dispatch-Guarded moment (unrouted status) ctx r s h = absurd h

  -- On the routes of orders, a request is answered with 401 and changes nothing, or it carries a
  -- bearer token that HS256 verifies under the manager's secret, that names a user, and whose
  -- expiry, if it has one, has not come.
  pub serve-Guarded :
      (moment : Moment) (r : Request) (s : Store)
      → IsProtected (route_of r.method r.path)
      → Guarded lib m moment.now r s
          ((serve repo lib m json v moment r s).0.reply, (serve repo lib m json v moment r s).1)
  unfolding serve
  serve-Guarded moment r s h = dispatch-Guarded moment (route_of r.method r.path) _ r s h

error-ne-created : (e : Error) → (write_use_case_error e).status ≢ 201
unfolding write_use_case_error
error-ne-created e h = ground arith

reply_created-201 :
    (result : Result (Order × Bool))
    → (reply_created result).status ≡ 201
    → (o : Order) × (result ≡ ok (o, true))
reply_created-201 (err e) h = absurd (error-ne-created e h)
reply_created-201 (ok (o, true)) h = (o, refl)
reply_created-201 (ok (o, false)) h = absurd (ground arith)

-- What the client of a created order gets, and why.
pub record IsPlacedOrder (repo : OrderRepo) (lib : TokenLibrary) (m : Manager) (json : Decoder)
    (v : Validator) (now : ℤ) (r : Request) (reply : Reply) : Type 0 where
  pub user : Text
  pub items : List CreateOrderItem
  pub order : Order
  pub genuine : IsGenuine lib m now (bearer_token r) user
  pub decoded : decode_order json r ≡ ok items
  pub valid : v.order items ≡ none
  pub shown : reply ≡ write_json 201 (order_payload (new_order_response order))
  pub checked_out : IsCheckedOut (command user r items) order

module _ (d : PgDriver) (pg : IsPostgres d) (lib : TokenLibrary) (laws : IsTokenLibrary lib)
    (m : Manager) (json : Decoder) (v : Validator) where
  open d use {State}

  abbrev Placed : ℤ → Request → Reply → Type 0
  Placed now r reply = IsPlacedOrder (order_repo d) lib m json v now r reply

  Posted-Placed :
      (now : ℤ) (r : Request) (s : State) (end : Reply × State)
      → Posted (order_repo d) lib m json v now r s end
      → end.0.status ≡ 201
      → Placed now r end.0
  Posted-Placed now r s _ (unauthorized k) h = absurd (omega (arith, k, h))
  Posted-Placed now r s _ (rejected k) h = absurd (omega (arith, k, h))
  Posted-Placed now r s _ (accepted user items p key decoded valid) h =
      let cmd = command user r items in
      let (order, made) = reply_created-201 (UseCase.create (order_repo d) cmd s).0 h in
      record {
        user = user;
        items = items;
        order = order;
        genuine = parse-IsGenuine lib laws m now (bearer_token r) user p;
        decoded = decoded;
        valid = valid;
        shown = ap reply_created made;
        checked_out = create-IsCheckedOut d pg cmd s order made;
      }

  -- A reply 201 of POST /orders shows an order of the user that a token names which HS256 verifies
  -- under the manager's secret and whose expiry, if it has one, has not come; the order is under
  -- the request's key, built from the decoded and validated items, and has been checked out.
  pub serve-IsPlacedOrder :
      (moment : Moment) (r : Request) (s : State)
      → route_of r.method r.path ≡ create_order
      → (serve (order_repo d) lib m json v moment r s).0.reply.status ≡ 201
      → IsPlacedOrder
          (order_repo d)
          lib
          m
          json
          v
          moment.now
          r
          (serve (order_repo d) lib m json v moment r s).0.reply
  unfolding serve dispatch
  serve-IsPlacedOrder moment r s route = rw route (
      Posted-Placed moment.now r s _
        (auth_middleware-Posted (order_repo d) lib m json v moment.now _ r s))
