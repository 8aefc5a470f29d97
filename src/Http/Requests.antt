-- ===== src/Http/Requests.antt =====
-- What POST /orders does on every path: a request that is turned away changes nothing, and any other
-- is one call of the use case.
use checkout_saga.Common.{
  ◌≡◌, ◌≢◌, refl, ap, List, [], Option, none, some, arith, Bool-cases, inl, inr,
}
use checkout_saga.Common.Int.{ℤ}
use checkout_saga.Common.Text.{Text, is_empty, has_prefix}
use checkout_saga.Common.Text.Trim.{trim_space}
use checkout_saga.GoError.{Error, Result, ok, err}
use checkout_saga.UseCase.{OrderRepo, CreateOrderCommand}
use checkout_saga.UseCase
use checkout_saga.Jwt.{Manager, parse}
use checkout_saga.Jwt.Golang.{TokenLibrary}
use checkout_saga.Http.Wire.{
  Context, with_user_id, Request, Reply, Decoder, Validator, CreateOrderItem, decode_order,
  to_entity_items,
}
use checkout_saga.Http.Middleware.{
  auth_header, bearer_prefix, bearer_token, auth_middleware, authenticated,
}
use checkout_saga.Http.Handlers.{
  idempotency_header, reply_created, create, create_decoded, create_validated,
}

-- The request's idempotency key.
abbrev pub key_of : Request → Text
key_of r = trim_space (r.header idempotency_header)

abbrev pub command : Text → Request → List CreateOrderItem → CreateOrderCommand
command user_id r items = record {
  user_id = user_id;
  idempotency_key = key_of r;
  items = to_entity_items items;
}

module _ (repo : OrderRepo) (lib : TokenLibrary) (m : Manager) (json : Decoder)
    (v : Validator) where
  open repo use {Store}

  -- A client error, with nothing changed; or a verified user's decoded and valid order, and what the
  -- use case did with it.
  pub data Posted (now : ℤ) (r : Request) (s : Store) : Reply × Store → Type 0 where
    unauthorized : {reply : Reply} → reply.status ≡ 401 → Posted now r s (reply, s)
    rejected : {reply : Reply} → reply.status ≡ 400 → Posted now r s (reply, s)
    accepted :
        (user : Text) (items : List CreateOrderItem)
        → parse lib m now (bearer_token r) ≡ ok user
        → key_of r ≢ []
        → decode_order json r ≡ ok items
        → v.order items ≡ none
        → Posted now r s (
          reply_created (UseCase.create repo (command user r items) s).0,
          (UseCase.create repo (command user r items) s).1,
        )

  validated-Posted :
      (now : ℤ) (ctx : Context) (r : Request) (s : Store) (user : Text)
      (items : List CreateOrderItem) (valid : Option Error)
      → parse lib m now (bearer_token r) ≡ ok user
      → key_of r ≢ []
      → decode_order json r ≡ ok items
      → v.order items ≡ valid
      → Posted now r s
          (create_validated repo json v (key_of r) (with_user_id ctx user) items valid s)
  validated-Posted now ctx r s user items (some e) p k d h = rejected refl
  validated-Posted now ctx r s user items none p k d h = accepted user items p k d h

  decoded-Posted :
      (now : ℤ) (ctx : Context) (r : Request) (s : Store) (user : Text)
      (decoded : Result (List CreateOrderItem))
      → parse lib m now (bearer_token r) ≡ ok user
      → key_of r ≢ []
      → decode_order json r ≡ decoded
      → Posted now r s (create_decoded repo json v (key_of r) (with_user_id ctx user) decoded s)
  decoded-Posted now ctx r s user (err e) p k d = rejected refl
  decoded-Posted now ctx r s user (ok items) p k d =
      validated-Posted now ctx r s user items (v.order items) p k d refl

  handled-Posted :
      (now : ℤ) (ctx : Context) (r : Request) (s : Store) (user : Text)
      → parse lib m now (bearer_token r) ≡ ok user
      → Posted now r s (create repo json v (with_user_id ctx user) r s)
  unfolding create
  handled-Posted now ctx r s user p = elim (Bool-cases (is_empty (key_of r))) [
    | inl empty ↦ rw empty (rejected refl)
    | inr keyed ↦ rw keyed (
        decoded-Posted now ctx r s user (decode_order json r) p (λ e. ground (arith, ap is_empty e))
          refl)
  ]

  parsed-Posted :
      (now : ℤ) (ctx : Context) (r : Request) (s : Store) (parsed : Result Text)
      → parse lib m now (bearer_token r) ≡ parsed
      → Posted now r s (authenticated lib m (create repo json v) ctx r parsed s)
  parsed-Posted now ctx r s (err e) p = unauthorized refl
  parsed-Posted now ctx r s (ok user) p = handled-Posted now ctx r s user p

  pub auth_middleware-Posted :
      (now : ℤ) (ctx : Context) (r : Request) (s : Store)
      → Posted now r s (auth_middleware lib m now (create repo json v) ctx r s)
  unfolding auth_middleware
  auth_middleware-Posted now ctx r s =
      elim (Bool-cases (has_prefix (r.header auth_header) bearer_prefix)) [
        | inl bearer ↦ rw bearer (parsed-Posted now ctx r s (parse lib m now (bearer_token r)) refl)
        | inr missing ↦ rw missing (unauthorized refl)
      ]
