-- ===== src/Http/Wire.antt =====
-- internal/order/controller/http: the request context (context.go), the wire types (dto.go), the
-- envelope and the body's decoding (response.go). encoding/json is used through `Decoder`, which gives
-- the raw text of each price; the validator's answers are those of `Validator`.
use checkout_saga.Common.{ℕ, ◌^◌, String, List, [], ◌∷◌, Option, none, some, map, take}
use checkout_saga.Common.Int.{ℤ, pos}
use checkout_saga.Common.Text.{Text}
use checkout_saga.GoError.{Part, Error, Result, ok, ◌>>=◌, annotate}
use checkout_saga.Money.{Money, unmarshal_json}
use checkout_saga.Order.{Order, OrderItem, subtotal, status_text}

-- The values that the middleware stores in a request's context.
pub record Context : Type 0 where
  pub user_id : Option Text
  pub trace_id : Option Text

-- WithUserID
abbrev pub with_user_id : Context → Text → Context
with_user_id ctx user_id = record ctx { user_id = some user_id }

-- UserIDFromContext; `none` is a nil context.
abbrev pub user_id_from_context : Option Context → Text
user_id_from_context none = []
user_id_from_context (some ctx) = elim ctx.user_id [ none ↦ [] | some v ↦ v ]

-- What the controllers read of *http.Request: the path by its segments, a missing header as "".
pub record Request : Type 0 where
  pub method : Text
  pub path : List Text
  pub header : String → Text
  pub body : Text

-- createOrderItem
pub record CreateOrderItem : Type 0 where
  pub product_id : Text
  pub quantity : ℤ
  pub price : Money

-- toEntityItems
unfoldable pub to_entity_items : List CreateOrderItem → List OrderItem
to_entity_items [] = []
to_entity_items (item ∷ items) =
    record {
      id = [];
      order_id = [];
      product_id = item.product_id;
      quantity = item.quantity;
      price = item.price;
    }
    ∷ to_entity_items items

-- orderItemResponse
pub record OrderItemResponse : Type 0 where
  pub id : Text
  pub product_id : Text
  pub quantity : ℤ
  pub price : Money
  pub subtotal : Money

-- orderResponse
pub record OrderResponse : Type 0 where
  pub id : Text
  pub user_id : Text
  pub total_amount : Money
  pub status : Text
  pub idempotency_key : Text
  pub version : ℤ
  pub created_at : ℕ
  pub updated_at : ℕ
  pub items : List OrderItemResponse

abbrev pub item_response : OrderItem → OrderItemResponse
item_response item = record {
  id = item.id;
  product_id = item.product_id;
  quantity = item.quantity;
  price = item.price;
  subtotal = subtotal item;
}

-- newOrderResponse
abbrev pub new_order_response : Order → OrderResponse
new_order_response order = record {
  id = order.id;
  user_id = order.user_id;
  total_amount = order.total_amount;
  status = status_text order.status;
  idempotency_key = order.idempotency_key;
  version = order.version;
  created_at = order.created_at;
  updated_at = order.updated_at;
  items = map item_response order.items;
}

-- loginRequest
pub record LoginRequest : Type 0 where
  pub user_id : Text

-- loginResponse
pub record LoginResponse : Type 0 where
  pub token : Text

pub data Payload : Type 0 where
  order_payload : OrderResponse → Payload
  token_payload : LoginResponse → Payload

-- envelope, and the plain text of the mux's own replies
pub data Body : Type 0 where
  data_body : Payload → Body
  error_body : (code : String) (message : List Part) → Body
  text_body : String → Body

-- What a handler writes.
pub record Reply : Type 0 where
  pub status : ℕ
  pub content_type : String
  pub body : Body

-- write
abbrev pub write : ℕ → Body → Reply
write status body = record {
  status = status;
  content_type = "application/json; charset=utf-8";
  body = body;
}

-- writeJSON
abbrev pub write_json : ℕ → Payload → Reply
write_json status payload = write status (data_body payload)

-- writeError
abbrev pub write_error : ℕ → String → List Part → Reply
write_error status code text = write status (error_body code text)

-- An item as encoding/json reads it: the raw value of "price" for its UnmarshalJSON, if there is one.
pub record RawItem : Type 0 where
  pub product_id : Text
  pub quantity : ℤ
  pub price : Option Text

-- json.Decoder with DisallowUnknownFields, on a createOrderRequest and on a loginRequest.
pub record Decoder : Type 0 where
  pub order : Text → Result (List RawItem)
  pub login : Text → Result LoginRequest

-- _maxBodyBytes
abbrev pub max_body_bytes : ℕ
max_body_bytes = 2 ^ 20

-- A price that is absent stays the zero value.
abbrev pub read_price : Option Text → Result Money
read_price none = ok (pos 0)
read_price (some raw) = unmarshal_json raw

unfoldable pub read_raw_items : List RawItem → Result (List CreateOrderItem)
read_raw_items [] = ok []
read_raw_items (raw ∷ raws) = read_price raw.price >>= (λ price. read_raw_items raws >>= (λ items.
    ok (record { product_id = raw.product_id; quantity = raw.quantity; price = price } ∷ items)))

-- decodeJSON on a createOrderRequest
unfoldable pub decode_order : Decoder → Request → Result (List CreateOrderItem)
decode_order json r =
    annotate "decode body: " (json.order (take max_body_bytes r.body) >>= read_raw_items)

-- decodeJSON on a loginRequest
unfoldable pub decode_login : Decoder → Request → Result LoginRequest
decode_login json r = annotate "decode body: " (json.login (take max_body_bytes r.body))

-- validator.Struct on a createOrderRequest and on a loginRequest, validator.Var on an id.
pub record Validator : Type 0 where
  pub order : List CreateOrderItem → Option Error
  pub login : LoginRequest → Option Error
  pub id : Text → Option Error
