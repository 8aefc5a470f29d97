-- ===== src/Http/Validation.antt =====
-- Behind the validation of POST /orders (dto.go, order-handler.go), NewOrder's one remaining refusal
-- is a total that is not positive, which int64 makes possible.
use checkout_saga.Common.{◌≡◌, ◌≢◌, ◌↔◌, refl, List, [], ◌∷◌, none, All}
use checkout_saga.Common.Int.{pos, ◌≤ℤ◌}
use checkout_saga.Common.Text.{Text}
use checkout_saga.GoError.{ok}
use checkout_saga.Order.{Order, new_order}
use checkout_saga.Order.Guards.{IsOrderable, machine_total, new_order_iff}
use checkout_saga.Http.Wire.{CreateOrderItem, to_entity_items, Validator}

-- The tags of createOrderItem, as the validator documents them; a uuid is not empty.
pub record IsValid (item : CreateOrderItem) : Type 0 where
  pub product : item.product_id ≢ []
  pub quantity : pos 1 ≤ℤ item.quantity
  pub price : pos 0 ≤ℤ item.price

-- required, min=1, dive
pub record IsValidator (v : Validator) : Type 0 where
  pub some_item : (items : List CreateOrderItem) → v.order items ≡ none → items ≢ []
  pub each_item : (items : List CreateOrderItem) → v.order items ≡ none → All IsValid items

to_entity_items-IsOrderable :
    (items : List CreateOrderItem) → All IsValid items → All IsOrderable (to_entity_items items)
unfolding to_entity_items
to_entity_items-IsOrderable [] h = tt
to_entity_items-IsOrderable (i ∷ items) (h, hs) = (
  record { product = h.product; quantity = h.quantity; price = h.price },
  to_entity_items-IsOrderable items hs,
)

to_entity_items-ne-nil : (items : List CreateOrderItem) → items ≢ [] → to_entity_items items ≢ []
unfolding to_entity_items
to_entity_items-ne-nil [] h = absurd (h refl)
to_entity_items-ne-nil (i ∷ items) h = λ e. cc

-- For a user, a key and items that the validator accepts, NewOrder builds an order exactly when the
-- int64 total of the items is positive.
pub new_order_valid_iff :
    (v : Validator)
    → IsValidator v
    → (user key : Text) (items : List CreateOrderItem) → user ≢ []
    → key ≢ []
    → v.order items ≡ none
    → ((o : Order) × (new_order user key (to_entity_items items) ≡ ok o))
      ↔ (pos 1 ≤ℤ machine_total (pos 0) (to_entity_items items))
new_order_valid_iff v laws user key items named keyed valid = (
  λ made. let (o, h) = made in ((new_order_iff user key (to_entity_items items) o).0 h).positive,
  λ positive. (
    _,
    (new_order_iff user key (to_entity_items items) _).1 (record {
      user = named;
      keyed = keyed;
      nonempty = to_entity_items-ne-nil items (laws.some_item items valid);
      orderable = to_entity_items-IsOrderable items (laws.each_item items valid);
      positive = positive;
      built = refl;
    }),
  ),
)
