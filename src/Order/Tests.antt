-- ===== src/Order/Tests.antt =====
-- NewOrder at inputs of internal/order/entity/order_test.go, an order whose total wraps around, and
-- the instances of the theorems.
use checkout_saga.Common.{◌^◌, ◌≤◌, ◌<◌, ◌≡◌, ◌≢◌, ◌↔◌, refl, [], ◌∷◌, List}
use checkout_saga.Common.Int.{ℤ, pos, wrap64, ◌+ℤ◌, ◌*ℤ◌, max_int64}
use checkout_saga.Common.Text.{Text}
use checkout_saga.GoError.{ok}
use checkout_saga.Money.{mul}
use checkout_saga.Order.{OrderItem, placed, new_order, sum_items, subtotal}
use checkout_saga.Order.Guards.{IsPlaced, new_order_iff}
use checkout_saga.Order.Total.{exact_total, new_order_total}

abbrev user : Text
user = b'u' ∷ []

abbrev product : Text
product = b'p' ∷ []

abbrev key : Text
key = b'k' ∷ []

abbrev item : ℤ → ℤ → OrderItem
item quantity price = record {
  id = [];
  order_id = [];
  product_id = product;
  quantity = quantity;
  price = price;
}

-- Two pieces at 10.50 and one at 5.25.
abbrev basket : List OrderItem
basket = item (pos 2) (pos 1050) ∷ item (pos 1) (pos 525) ∷ []

basket_order : new_order user key basket ≡ ok (placed user key basket (pos 2625))
unfolding new_order sum_items subtotal mul wrap64 ◌+ℤ◌ ◌*ℤ◌
basket_order = refl

-- Prices of a DECIMAL(10, 2) and quantities of an INT: the sum is 2 ^ 64 + 1 cents, the total 1 cent.
abbrev overflowing : List OrderItem
overflowing =
    item (pos (2 ^ 30)) (pos (2 ^ 33))
    ∷ item (pos (2 ^ 30)) (pos (2 ^ 33))
    ∷ item (pos 1) (pos 1)
    ∷ []

overflowing_order : new_order user key overflowing ≡ ok (placed user key overflowing (pos 1))
unfolding new_order sum_items subtotal mul wrap64 ◌+ℤ◌ ◌*ℤ◌
overflowing_order = refl

new_order_iff_example :
    (new_order user key basket ≡ ok (placed user key basket (pos 2625)))
    ↔ IsPlaced user key basket (placed user key basket (pos 2625))
new_order_iff_example = new_order_iff user key basket (placed user key basket (pos 2625))

new_order_total_example :
    let o = placed user key overflowing (pos 1) in
    (o.total_amount ≡ wrap64 (pos (exact_total overflowing)))
    × (exact_total overflowing ≤ max_int64 → o.total_amount ≡ pos (exact_total overflowing))
    × (max_int64 < exact_total overflowing → o.total_amount ≢ pos (exact_total overflowing))
new_order_total_example =
    new_order_total user key overflowing (placed user key overflowing (pos 1)) overflowing_order
