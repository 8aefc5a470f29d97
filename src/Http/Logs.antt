-- ===== src/Http/Logs.antt =====
-- The lines that a request writes to the log (internal/order/controller/http), apart from that of a
-- reply that could not be written: order-handler.go, login-handler.go and middleware.go. The context is
-- that of pkg/logger, from the background context on.
use checkout_saga.Common.{
  String, ℕ, Bool, ◌||◌, List, [], ◌∷◌, ◌++◌, Option, none, some, if◌then◌else◌,
}
use checkout_saga.Common.Int.{ℤ}
use checkout_saga.Common.Text.{Text, codes, is_empty, has_prefix}
use checkout_saga.Common.Text.Trim.{trim_space}
use checkout_saga.GoError.{
  Error, is_error, order_not_found, invalid_order, invalid_money, Result, ok, err,
}
use checkout_saga.Order.{Order}
use checkout_saga.UseCase
use checkout_saga.UseCase.{OrderRepo}
use checkout_saga.Jwt.{Manager, parse, generate}
use checkout_saga.Jwt.Golang.{TokenLibrary}
use checkout_saga.Logger.Backend.{
  Level, debug_level, info_level, error_level, Field, string_field, bool_field, error_field,
}
use checkout_saga.Logger.Contexts.{
  Context, background, with_value, other_key, string_value, with_trace_id, trace_id_from_context,
}
use checkout_saga.Http.Wire.{
  LoginRequest, Request, Decoder, Validator, CreateOrderItem, decode_order, decode_login,
  to_entity_items,
}
use checkout_saga.Http.Middleware.{auth_header, bearer_prefix, bearer_token, trace_id_of}
use checkout_saga.Http.Handlers.{idempotency_header}
use checkout_saga.Http.Router.{Moment, Route, login, create_order, get_order, unrouted, route_of}

pub record Line : Type 0 where
  pub level : Level
  pub text : Text
  pub fields : List Field

-- userIDContextKey{}
abbrev pub user_id_key : ℕ
user_id_key = 0

module _ {Logger : Type 0} where
  -- zap.String("trace_id", logger.TraceIDFromContext(ctx))
  abbrev pub trace_field : Context Logger → Field
  trace_field ctx = string_field "trace_id" (trace_id_from_context (some ctx))

  -- The default case of writeUseCaseError.
  abbrev pub failed_line : Context Logger → String → Error → Line
  failed_line ctx op e = record {
    level = error_level;
    text = codes op ++ codes " failed";
    fields = error_field e ∷ trace_field ctx ∷ [];
  }

  -- writeUseCaseError
  abbrev pub use_case_error_lines : Context Logger → String → Error → List Line
  use_case_error_lines ctx op e =
      if is_error order_not_found e
      then []
      else if is_error invalid_order e || is_error invalid_money e
      then []
      else failed_line ctx op e ∷ []

  -- The end of create.
  abbrev pub created_lines : Context Logger → Result (Order × Bool) → List Line
  created_lines ctx (err e) = use_case_error_lines ctx "create order" e
  created_lines ctx (ok (order, created)) =
      record {
        level = info_level;
        text = codes "order create handled";
        fields =
            string_field "order_id" order.id ∷ bool_field "created" created ∷ trace_field ctx ∷ [];
      }
      ∷ []

  -- The end of getByID.
  abbrev pub found_lines : Context Logger → Result Order → List Line
  found_lines ctx (err e) = use_case_error_lines ctx "get order" e
  found_lines ctx (ok order) = []

  -- The end of issue.
  abbrev pub token_lines : Context Logger → Result Text → List Line
  token_lines ctx (ok token) = []
  token_lines ctx (err e) =
      record {
        level = error_level;
        text = codes "issue token failed";
        fields = error_field e ∷ trace_field ctx ∷ [];
      }
      ∷ []

  module _ (repo : OrderRepo) (lib : TokenLibrary) (m : Manager) (json : Decoder)
      (v : Validator) where
    open repo use {Store}

    -- create behind its checks, by the authenticated user
    abbrev pub validated_lines :
        (user key : Text) → Context Logger → List CreateOrderItem → Option Error → Store → List Line
    validated_lines user key ctx items (some e) s = []
    validated_lines user key ctx items none s =
        created_lines ctx
          (UseCase.create repo
            (record { user_id = user; idempotency_key = key; items = to_entity_items items }) s).0

    abbrev pub decoded_lines :
        (user key : Text) → Context Logger → Result (List CreateOrderItem) → Store → List Line
    decoded_lines user key ctx (err e) s = []
    decoded_lines user key ctx (ok items) s = validated_lines user key ctx items (v.order items) s

    -- create
    unfoldable pub create_lines : (user : Text) → Context Logger → Request → Store → List Line
    create_lines user ctx r s =
        let key = trim_space (r.header idempotency_header) in
        if is_empty key then [] else decoded_lines user key ctx (decode_order json r) s

    -- getByID behind the check of the id
    abbrev pub get_checked_lines : Context Logger → Option Error → Text → Store → List Line
    get_checked_lines ctx (some e) id s = []
    get_checked_lines ctx none id s = found_lines ctx (UseCase.get_by_id repo id s)

    -- issue behind the decoding, and behind the validation
    abbrev pub issue_decoded_lines : ℤ → Context Logger → Result LoginRequest → List Line
    issue_decoded_lines now ctx (err e) = []
    issue_decoded_lines now ctx (ok req) = elim (v.login req) [
      | some e ↦ []
      | none ↦ token_lines ctx (generate lib m req.user_id now)
    ]

    -- authMiddleware behind Parse, with the lines of the inner handler
    abbrev pub authenticated_lines :
        (Text → Context Logger → List Line) → Context Logger → Result Text → List Line
    authenticated_lines next ctx (err e) = []
    authenticated_lines next ctx (ok user_id) =
        let inner = with_value ctx (other_key user_id_key) (string_value user_id) in
        record {
          level = debug_level;
          text = codes "request authenticated";
          fields = string_field "user_id" user_id ∷ trace_field inner ∷ [];
        }
        ∷ next user_id inner

    -- authMiddleware
    unfoldable pub auth_lines :
        ℤ → (Text → Context Logger → List Line) → Context Logger → Request → List Line
    auth_lines now next ctx r =
        if has_prefix (r.header auth_header) bearer_prefix
        then authenticated_lines next ctx (parse lib m now (bearer_token r))
        else []

    unfoldable pub dispatch_lines : Moment → Route → Context Logger → Request → Store → List Line
    dispatch_lines moment login ctx r s = issue_decoded_lines moment.now ctx (decode_login json r)
    dispatch_lines moment create_order ctx r s =
        auth_lines moment.now (λ user inner. create_lines user inner r s) ctx r
    dispatch_lines moment (get_order id) ctx r s =
        auth_lines moment.now (λ user inner. get_checked_lines inner (v.id id) id s) ctx r
    dispatch_lines moment (unrouted status) ctx r s = []

module _ (Logger : Type 0) (repo : OrderRepo) (lib : TokenLibrary) (m : Manager) (json : Decoder)
    (v : Validator) where
  open repo use {Store}

  -- The lines of a request to NewRouter's handler.
  unfoldable pub serve_lines : Moment → Request → Store → List Line
  serve_lines moment r s =
      dispatch_lines repo lib m json v moment (route_of r.method r.path)
        (with_trace_id {Logger = Logger} background (trace_id_of moment.random r)) r s
