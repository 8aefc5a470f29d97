-- ===== src/Order.antt =====
-- internal/order/entity/order.go: the order aggregate and its constructor.
-- Go's `int` has 64 bits; a time is the number of an instant, 0 the zero value of time.Time.
pub mod Guards
pub mod Total
pub mod States
mod Tests
use checkout_saga.Common.{
  ℕ, String, ◌≡◌, Bool, true, false, List, [], ◌∷◌, Option, none, some, if◌then◌else◌,
}
use checkout_saga.Common.Int.{ℤ, pos, ltb_ℤ, leb_ℤ, wrap64, ◌+ℤ◌}
use checkout_saga.Common.Text.{Text, codes, is_empty, text_eq}
use checkout_saga.GoError.{Error, base, wrap, lit, invalid_order, Result, ok, err, ◌>>=◌}
use checkout_saga.Money.{Money, mul}

-- type Status string: the constants and, behind `other`, any other string, which scanOrder lets in.
pub data Status : Type 0 where
  pending inventory_reserved payment_processing completed : Status
  payment_failed inventory_insufficient cancelled : Status
  other : Text → Status

-- string(status)
unfoldable pub status_text : Status → Text
unfolding codes
status_text pending = codes "PENDING"
status_text inventory_reserved = codes "INVENTORY_RESERVED"
status_text payment_processing = codes "PAYMENT_PROCESSING"
status_text completed = codes "COMPLETED"
status_text payment_failed = codes "PAYMENT_FAILED"
status_text inventory_insufficient = codes "INVENTORY_INSUFFICIENT"
status_text cancelled = codes "CANCELLED"
status_text (other t) = t

-- Status(text)
unfoldable pub status_of : Text → Status
unfolding codes text_eq
status_of t =
    if text_eq t (codes "PENDING")
    then pending
    else if text_eq t (codes "INVENTORY_RESERVED")
    then inventory_reserved
    else if text_eq t (codes "PAYMENT_PROCESSING")
    then payment_processing
    else if text_eq t (codes "COMPLETED")
    then completed
    else if text_eq t (codes "PAYMENT_FAILED")
    then payment_failed
    else if text_eq t (codes "INVENTORY_INSUFFICIENT")
    then inventory_insufficient
    else if text_eq t (codes "CANCELLED")
    then cancelled
    else other t

pub record OrderItem : Type 0 where
  pub id : Text
  pub order_id : Text
  pub product_id : Text
  pub quantity : ℤ
  pub price : Money

-- OrderItem.Subtotal
unfoldable pub subtotal : OrderItem → Money
subtotal i = mul i.price i.quantity

pub record Order : Type 0 where
  pub id : Text
  pub user_id : Text
  pub total_amount : Money
  pub status : Status
  pub idempotency_key : Text
  pub version : ℤ
  pub created_at : ℕ
  pub updated_at : ℕ
  pub items : List OrderItem

abbrev pub order_error : String → Error
order_error text = wrap [] (base invalid_order) (lit text ∷ [])

-- The loop of NewOrder: the checks of each item, and the running total in int64.
unfoldable pub sum_items : Money → List OrderItem → Result Money
sum_items total [] = ok total
sum_items total (item ∷ items) =
    if is_empty item.product_id
    then err (order_error ": product_id is required")
    else if leb_ℤ item.quantity (pos 0)
    then err (order_error ": quantity must be > 0")
    else if ltb_ℤ item.price (pos 0)
    then err (order_error ": price must be >= 0")
    else sum_items (wrap64 (total +ℤ subtotal item)) items

abbrev pub no_items : List OrderItem → Bool
no_items [] = true
no_items (_ ∷ _) = false

-- The order that NewOrder builds: no id and no times before it is stored.
abbrev pub placed : Text → Text → List OrderItem → Money → Order
placed user_id key items total = record {
  id = [];
  user_id = user_id;
  total_amount = total;
  status = pending;
  idempotency_key = key;
  version = pos 0;
  created_at = 0;
  updated_at = 0;
  items = items;
}

-- The check of NewOrder behind the loop, and the new order.
place : Text → Text → List OrderItem → Money → Result Order
place user_id key items total =
    if leb_ℤ total (pos 0)
    then err (order_error ": total must be > 0")
    else ok (placed user_id key items total)

-- NewOrder
unfoldable pub new_order : Text → Text → List OrderItem → Result Order
unfolding place
new_order user_id key items =
    if is_empty user_id
    then err (order_error ": user_id is required")
    else if is_empty key
    then err (order_error ": idempotency key is required")
    else if no_items items
    then err (order_error ": at least one item is required")
    else do total ← sum_items (pos 0) items; place user_id key items total
