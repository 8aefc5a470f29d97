-- ===== src/Http/Sample.antt =====
-- A request to the order service, with the decoder, the validator and the tokens that its tests use.
use checkout_saga.Common.{[], ◌∷◌, none, some, ◌++◌, if◌then◌else◌}
use checkout_saga.Common.Int.{pos}
use checkout_saga.Common.Text.{codes, text_eq}
use checkout_saga.GoError.{ok}
use checkout_saga.Jwt.{Manager}
use checkout_saga.Http.Wire.{Request, Decoder, Validator}
use checkout_saga.Http.Router.{Moment}

abbrev pub manager : Manager
manager = record { secret = b'k' ∷ []; expiry = pos 60 }

abbrev pub moment : Moment
moment = record { now = pos 5; random = some (0xab ∷ []) }

-- A decoder that reads every body as two of "p" at 10.50.
unfoldable pub json : Decoder
unfolding codes
json = record {
  order = λ body.
      ok (
        record { product_id = b'p' ∷ []; quantity = pos 2; price = some (codes "\"10.50\"") } ∷ []);
  login = λ body. ok (record { user_id = body });
}

abbrev pub v : Validator
v = record { order = λ items. none; login = λ id. none; id = λ id. none }

-- The token of the user "u", from 0 to 60.
unfoldable pub post : Request
unfolding codes text_eq
post = record {
  method = codes "POST";
  path = codes "orders" ∷ [];
  header = λ name.
      if text_eq (codes name) (codes "Authorization")
      then codes "Bearer " ++ (b'k' ∷ 0 ∷ 60 ∷ b'u' ∷ [])
      else if text_eq (codes name) (codes "Idempotency-Key")
      then codes "key"
      else [];
  body = [];
}
