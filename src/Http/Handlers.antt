-- ===== src/Http/Handlers.antt =====
-- The handlers of internal/order/controller/http: POST /orders and GET /orders/{id}
-- (order-handler.go), POST /login (login-handler.go). Log lines are left out.
use checkout_saga.Common.{String, Bool, List, [], ◌∷◌, Option, none, some, ◌||◌, if◌then◌else◌}
use checkout_saga.Common.Int.{ℤ}
use checkout_saga.Common.Text.{Text, is_empty}
use checkout_saga.Common.Text.Trim.{trim_space}
use checkout_saga.GoError.{
  lit, Error, message, is_error, order_not_found, invalid_order, invalid_money, Result, ok, err,
}
use checkout_saga.Order.{Order}
use checkout_saga.UseCase.{OrderRepo, CreateOrderCommand}
use checkout_saga.UseCase
use checkout_saga.Jwt.{Manager, generate}
use checkout_saga.Jwt.Golang.{TokenLibrary}
use checkout_saga.Http.Wire.{
  Context, user_id_from_context, Request, CreateOrderItem, to_entity_items, new_order_response,
  LoginRequest, order_payload, token_payload, Reply, write_json, write_error, Decoder, decode_order,
  decode_login, Validator,
}

abbrev pub idempotency_header : String
idempotency_header = "Idempotency-Key"

abbrev pub internal_error : Reply
internal_error = write_error 500 "internal_error" (lit "internal server error" ∷ [])

-- writeUseCaseError
unfoldable pub write_use_case_error : Error → Reply
write_use_case_error e =
    if is_error order_not_found e
    then write_error 404 "order_not_found" (lit "order not found" ∷ [])
    else if is_error invalid_order e || is_error invalid_money e
    then write_error 400 "invalid_order" (message e)
    else internal_error

-- The end of create: the reply to what the use case returned.
abbrev pub reply_created : Result (Order × Bool) → Reply
reply_created (err e) = write_use_case_error e
reply_created (ok (order, created)) =
    write_json (if created then 201 else 200) (order_payload (new_order_response order))

-- The end of getByID.
abbrev pub reply_found : Result Order → Reply
reply_found (err e) = write_use_case_error e
reply_found (ok order) = write_json 200 (order_payload (new_order_response order))

module _ (repo : OrderRepo) (json : Decoder) (v : Validator) where
  open repo use {Store}

  -- create behind the validation
  abbrev pub create_validated :
      Text → Context → List CreateOrderItem → Option Error → Store → Reply × Store
  create_validated key ctx items (some e) s = (write_error 400 "validation_failed" (message e), s)
  create_validated key ctx items none s =
      let (result, s') =
        UseCase.create repo
          (record {
            user_id = user_id_from_context (some ctx);
            idempotency_key = key;
            items = to_entity_items items;
          })
          s in
      (reply_created result, s')

  -- create behind the decoding
  abbrev pub create_decoded : Text → Context → Result (List CreateOrderItem) → Store → Reply × Store
  create_decoded key ctx (err e) s = (write_error 400 "invalid_body" (message e), s)
  create_decoded key ctx (ok items) s = create_validated key ctx items (v.order items) s

  -- orderHandler.create
  unfoldable pub create : Context → Request → Store → Reply × Store
  create ctx r s =
      let key = trim_space (r.header idempotency_header) in
      if is_empty key
      then (
        write_error 400 "missing_idempotency_key" (lit "Idempotency-Key header is required" ∷ []),
        s,
      )
      else create_decoded key ctx (decode_order json r) s

  -- getByID behind the check of the id
  abbrev pub get_checked : Option Error → Text → Store → Reply
  get_checked (some e) id s =
      write_error 400 "invalid_order_id" (lit "order id must be a uuid" ∷ [])
  get_checked none id s = reply_found (UseCase.get_by_id repo id s)

  -- orderHandler.getByID
  unfoldable pub get_by_id : Text → Store → Reply
  get_by_id id s = get_checked (v.id id) id s

module _ (lib : TokenLibrary) (m : Manager) (json : Decoder) (v : Validator) where
  -- The end of issue.
  abbrev pub reply_token : Result Text → Reply
  reply_token (err e) = internal_error
  reply_token (ok token) = write_json 200 (token_payload (record { token = token }))

  -- issue behind the decoding
  abbrev pub issue_decoded : ℤ → Result LoginRequest → Reply
  issue_decoded now (err e) = write_error 400 "invalid_body" (message e)
  issue_decoded now (ok req) = elim (v.login req) [
    | some e ↦ write_error 400 "validation_failed" (message e)
    | none ↦ reply_token (generate lib m req.user_id now)
  ]

  -- loginHandler.issue, at the instant `now`
  unfoldable pub issue : ℤ → Request → Reply
  issue now r = issue_decoded now (decode_login json r)
