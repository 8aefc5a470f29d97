-- ===== src/Order/Guards.antt =====
-- What NewOrder checks: exactly the orders that pass every check are built, and every refusal is an
-- ErrInvalidOrder.
use checkout_saga.Common.{◌≡◌, ◌≢◌, ◌↔◌, refl, sym, ◌∙◌, true, false, List, [], ◌∷◌, All, arith}
use checkout_saga.Common.Int.{ℤ, pos, ◌≤ℤ◌, wrap64, ◌+ℤ◌}
use checkout_saga.Common.Text.{Text, is_empty}
use checkout_saga.GoError.{ok-injective, Error, ok, err, is_error, invalid_order, >>=-eq-ok, ◌>>=◌}
use checkout_saga.Order.{
  Order, OrderItem, placed, place, no_items, subtotal, sum_items, place, new_order,
}

-- An item that may be ordered.
pub record IsOrderable (i : OrderItem) : Type 0 where
  pub product : i.product_id ≢ []
  pub quantity : pos 1 ≤ℤ i.quantity
  pub price : pos 0 ≤ℤ i.price

-- The total that the loop computes in int64.
abbrev pub machine_total : ℤ → List OrderItem → ℤ
machine_total acc [] = acc
machine_total acc (i ∷ items) = machine_total (wrap64 (acc +ℤ subtotal i)) items

is_empty-cases : (t : Text) → (is_empty t ≡ false) ↔ (t ≢ [])
is_empty-cases [] = ground arith
is_empty-cases (c ∷ t) = ground arith

pub sum_items-ok :
    (items : List OrderItem) (acc : ℤ)
    → All IsOrderable items
    → sum_items acc items ≡ ok (machine_total acc items)
unfolding sum_items
sum_items-ok [] acc h = refl
sum_items-ok (i ∷ items) acc (h, hs) = ground (
  arith,
  (is_empty-cases i.product_id).1 h.product,
  sum_items-ok items (wrap64 (acc +ℤ subtotal i)) hs,
)

pub sum_items-IsOrderable :
    (items : List OrderItem) (acc total : ℤ)
    → sum_items acc items ≡ ok total
    → All IsOrderable items
unfolding sum_items
sum_items-IsOrderable [] acc total h = tt
sum_items-IsOrderable (i ∷ items) acc total h =
    let rest = sum_items-IsOrderable items (wrap64 (acc +ℤ subtotal i)) total (ground arith) in
    (
      record {
        product = (is_empty-cases i.product_id).0 (ground arith);
        quantity = ground arith;
        price = ground arith;
      },
      rest,
    )

no_items-cases : (items : List OrderItem) → (no_items items ≡ false) ↔ (items ≢ [])
no_items-cases [] = ground arith
no_items-cases (i ∷ items) = ground arith

-- What NewOrder asks of its arguments, and what it builds from them.
pub record IsPlaced (user_id key : Text) (items : List OrderItem) (o : Order) : Type 0 where
  pub user : user_id ≢ []
  pub keyed : key ≢ []
  pub nonempty : items ≢ []
  pub orderable : All IsOrderable items
  pub positive : pos 1 ≤ℤ machine_total (pos 0) items
  pub built : o ≡ placed user_id key items (machine_total (pos 0) items)

module _ (user_id key : Text) (items : List OrderItem) where
  new_order-ok : (o : Order) → IsPlaced user_id key items o → new_order user_id key items ≡ ok o
  unfolding new_order
  new_order-ok o h = ground (
    arith,
    (is_empty-cases user_id).1 h.user,
    (is_empty-cases key).1 h.keyed,
    (no_items-cases items).1 h.nonempty,
    sum_items-ok items (pos 0) h.orderable,
  )

  pub new_order-IsPlaced :
      (o : Order) → new_order user_id key items ≡ ok o → IsPlaced user_id key items o
  unfolding new_order
  new_order-IsPlaced o h =
      let user : user_id ≢ [] = (is_empty-cases user_id).0 (ground arith) in
      let keyed : key ≢ [] = (is_empty-cases key).0 (ground arith) in
      let nonempty : items ≢ [] = (no_items-cases items).0 (ground arith) in
      let placing : (sum_items (pos 0) items >>= place user_id key items) ≡ ok o = ground arith in
      let (total, summed, made) =
        >>=-eq-ok (sum_items (pos 0) items) (place user_id key items) placing in
      let orderable = sum_items-IsOrderable items (pos 0) total summed in
      let same : machine_total (pos 0) items ≡ total =
        ok-injective (sym (sum_items-ok items (pos 0) orderable) ∙ summed) in
      record {
        user = user;
        keyed = keyed;
        nonempty = nonempty;
        orderable = orderable;
        positive = rw same (ground arith);
        built = rw same (ground arith);
      }

  -- NewOrder returns an order exactly when the owner, the key and the items are not empty, each item
  -- has a product, a positive quantity and a price that is not negative, and the int64 total is
  -- positive; the order is then the PENDING one with that total.
  pub new_order_iff :
      (o : Order) → (new_order user_id key items ≡ ok o) ↔ IsPlaced user_id key items o
  new_order_iff o = (new_order-IsPlaced o, new_order-ok o)

sum_items-is_error :
    (items : List OrderItem) (acc : ℤ) (e : Error)
    → sum_items acc items ≡ err e
    → is_error invalid_order e ≡ true
unfolding sum_items is_error
sum_items-is_error [] acc e h = cc
sum_items-is_error (i ∷ items) acc e h =
    ground (arith, sum_items-is_error items (wrap64 (acc +ℤ subtotal i)) e)

-- Every error of NewOrder is ErrInvalidOrder for errors.Is.
new_order-is_error :
    (user_id key : Text) (items : List OrderItem) (e : Error)
    → new_order user_id key items ≡ err e
    → is_error invalid_order e ≡ true
unfolding new_order is_error
new_order-is_error user_id key items e h = ground (arith, sum_items-is_error items (pos 0) e)
