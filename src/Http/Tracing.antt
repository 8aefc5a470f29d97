-- ===== src/Http/Tracing.antt =====
-- The trace id of a request (internal/order/controller/http) in the lines that it writes to the log.
pub mod Lines
use checkout_saga.Common.{
  String, Bool, ◌||◌, ◌≡◌, refl, ap, Bool-cases, inl, inr, List, [], ◌∷◌, ◌++◌, Option, none, some,
  All,
}
use checkout_saga.Common.Int.{ℤ}
use checkout_saga.Common.Text.Trim.{trim_space}
use checkout_saga.Common.Text.{Text, is_empty, has_prefix}
use checkout_saga.GoError.{
  Error, is_error, order_not_found, invalid_order, invalid_money, Result, ok, err,
}
use checkout_saga.Order.{Order}
use checkout_saga.UseCase.{OrderRepo}
use checkout_saga.Jwt.{Manager, generate}
use checkout_saga.Jwt.Golang.{TokenLibrary}
use checkout_saga.Logger.Backend.{Field, string_field, bool_field, error_field}
use checkout_saga.Logger.Contexts.{
  Context, background, with_value, other_key, string_value, value, key_eq, with_trace_id,
  trace_id_from_context, trace_id_field,
}
use checkout_saga.Http.Wire.{
  LoginRequest, Request, Decoder, Validator, CreateOrderItem, decode_order, decode_login,
}
use checkout_saga.Http.Middleware.{auth_header, bearer_prefix, trace_id_of}
use checkout_saga.Http.Router.{
  Moment, Route, login, create_order, get_order, unrouted, route_of, serve,
}
use checkout_saga.Http.Handlers.{idempotency_header}
use checkout_saga.Http.Logs.{
  Line, user_id_key, use_case_error_lines, created_lines, found_lines, token_lines, validated_lines,
  decoded_lines, create_lines, get_checked_lines, issue_decoded_lines, authenticated_lines,
  auth_lines, dispatch_lines, serve_lines,
}
use Lines.{
  IsTraced, Carries, with_user-Carries, created_lines-IsTraced, found_lines-IsTraced,
  token_lines-IsTraced, with_trace_id-Carries,
}

module _ {Logger : Type 0} (repo : OrderRepo) (lib : TokenLibrary) (m : Manager) (json : Decoder)
    (v : Validator) where
  open repo use {Store}

  validated_lines-IsTraced :
      (id user key : Text) (ctx : Context Logger) (items : List CreateOrderItem)
      (valid : Option Error) (s : Store)
      → Carries id ctx
      → All (IsTraced id) (validated_lines repo lib m json v user key ctx items valid s)
  validated_lines-IsTraced id user key ctx items (some e) s h = tt
  validated_lines-IsTraced id user key ctx items none s h = created_lines-IsTraced id ctx _ h

  decoded_lines-IsTraced :
      (id user key : Text) (ctx : Context Logger) (decoded : Result (List CreateOrderItem))
      (s : Store)
      → Carries id ctx
      → All (IsTraced id) (decoded_lines repo lib m json v user key ctx decoded s)
  decoded_lines-IsTraced id user key ctx (err e) s h = tt
  decoded_lines-IsTraced id user key ctx (ok items) s h =
      validated_lines-IsTraced id user key ctx items (v.order items) s h

  create_lines-IsTraced :
      (id user : Text) (ctx : Context Logger) (r : Request) (s : Store)
      → Carries id ctx
      → All (IsTraced id) (create_lines repo lib m json v user ctx r s)
  unfolding create_lines
  create_lines-IsTraced id user ctx r s h =
      elim (Bool-cases (is_empty (trim_space (r.header idempotency_header)))) [
        | inl missing ↦ rw missing tt
        | inr keyed ↦ rw keyed (decoded_lines-IsTraced id user _ ctx (decode_order json r) s h)
      ]

  get_checked_lines-IsTraced :
      (id order_id : Text) (ctx : Context Logger) (valid : Option Error) (s : Store)
      → Carries id ctx
      → All (IsTraced id) (get_checked_lines repo lib m json v ctx valid order_id s)
  get_checked_lines-IsTraced id order_id ctx (some e) s h = tt
  get_checked_lines-IsTraced id order_id ctx none s h = found_lines-IsTraced id ctx _ h

  login_lines-IsTraced :
      (now : ℤ) (id user : Text) (ctx : Context Logger) (valid : Option Error)
      → Carries id ctx
      → All (IsTraced id) (elim valid as (λ _. List Line) [
        | some e ↦ []
        | none ↦ token_lines ctx (generate lib m user now)
      ])
  login_lines-IsTraced now id user ctx (some e) h = tt
  login_lines-IsTraced now id user ctx none h = token_lines-IsTraced id ctx _ h

  issue_lines-IsTraced :
      (now : ℤ) (id : Text) (ctx : Context Logger) (decoded : Result LoginRequest)
      → Carries id ctx
      → All (IsTraced id) (issue_decoded_lines repo lib m json v now ctx decoded)
  issue_lines-IsTraced now id ctx (err e) h = tt
  issue_lines-IsTraced now id ctx (ok req) h =
      login_lines-IsTraced now id req.user_id ctx (v.login req) h

  authenticated_lines-IsTraced :
      (id : Text) (next : Text → Context Logger → List Line) (ctx : Context Logger)
      (parsed : Result Text)
      → ((user : Text) (inner : Context Logger)
          → Carries id inner
          → All (IsTraced id) (next user inner))
      → Carries id ctx
      → All (IsTraced id) (authenticated_lines repo lib m json v next ctx parsed)
  authenticated_lines-IsTraced id next ctx (err e) rest h = tt
  authenticated_lines-IsTraced id next ctx (ok user) rest h =
      let inner = with_user-Carries id user ctx h in
      (
        (
          string_field "user_id" user ∷ [],
          ap (λ t. string_field "user_id" user ∷ string_field trace_id_field t ∷ []) inner,
        ),
        rest user (with_value ctx (other_key user_id_key) (string_value user)) inner,
      )

  auth_lines-IsTraced :
      (now : ℤ) (id : Text) (next : Text → Context Logger → List Line) (ctx : Context Logger)
      (r : Request)
      → ((user : Text) (inner : Context Logger)
          → Carries id inner
          → All (IsTraced id) (next user inner))
      → Carries id ctx
      → All (IsTraced id) (auth_lines repo lib m json v now next ctx r)
  unfolding auth_lines
  auth_lines-IsTraced now id next ctx r rest h =
      elim (Bool-cases (has_prefix (r.header auth_header) bearer_prefix)) [
        | inl bearer ↦ rw bearer (authenticated_lines-IsTraced id next ctx _ rest h)
        | inr missing ↦ rw missing tt
      ]

  dispatch_lines-IsTraced :
      (moment : Moment) (route : Route) (id : Text) (ctx : Context Logger) (r : Request) (s : Store)
      → Carries id ctx
      → All (IsTraced id) (dispatch_lines repo lib m json v moment route ctx r s)
  unfolding dispatch_lines
  dispatch_lines-IsTraced moment login id ctx r s h =
      issue_lines-IsTraced moment.now id ctx (decode_login json r) h
  dispatch_lines-IsTraced moment create_order id ctx r s h =
      auth_lines-IsTraced moment.now id _ ctx r
        (λ user inner k. create_lines-IsTraced id user inner r s k) h
  dispatch_lines-IsTraced moment (get_order order_id) id ctx r s h =
      auth_lines-IsTraced moment.now id _ ctx r
        (λ user inner k. get_checked_lines-IsTraced id order_id inner (v.id order_id) s k) h
  dispatch_lines-IsTraced moment (unrouted status) id ctx r s h = tt

-- Each line that a request writes to the log, apart from that of a reply that could not be written, has
-- as its last field the trace id that the request's reply shows.
pub serve_lines-IsTraced :
    (Logger : Type 0) (repo : OrderRepo) (lib : TokenLibrary) (m : Manager) (json : Decoder)
    (v : Validator) (moment : Moment) (r : Request) (s : repo.Store)
    → All
        (IsTraced (serve repo lib m json v moment r s).0.trace_id)
        (serve_lines Logger repo lib m json v moment r s)
unfolding serve serve_lines
serve_lines-IsTraced Logger repo lib m json v moment r s =
    dispatch_lines-IsTraced repo lib m json v moment (route_of r.method r.path)
      (trace_id_of moment.random r) _ r s
      (with_trace_id-Carries Logger (trace_id_of moment.random r))
