-- ===== src/Schema/Tests.antt =====
-- The columns on an order that fits, on one that does not, and the instances of the theorems.
use checkout_saga.Common.{◌≡◌, ◌↔◌, refl, ◌*◌, ◌^◌, Bool, true, false, List, [], ◌∷◌}
use checkout_saga.Common.Int.{ℤ, pos, wrap64, ◌+ℤ◌, ◌*ℤ◌}
use checkout_saga.Common.Text.{Text, codes, text_eq}
use checkout_saga.GoError.{ok}
use checkout_saga.Money.{mul}
use checkout_saga.Order.{Order, OrderItem, placed, new_order, sum_items, status_text, subtotal}
use checkout_saga.Schema.{
  is_text, unpadded, characters, fits_varchar, fits_decimal, fits_int, status_allowed, row_allowed,
  line_allowed, allowed,
}
use checkout_saga.Schema.Widths.{Fits, new_order-allowed_iff}

abbrev items : ℤ → List OrderItem
items quantity =
    record { id = []; order_id = []; product_id = b'p' ∷ []; quantity = quantity; price = pos 1050 }
    ∷ []

abbrev any_uuid : Text → Bool
any_uuid t = true

abbrev small : Order
small = placed (b'u' ∷ []) (b'k' ∷ []) (items (pos 2)) (pos 2100)

built : new_order (b'u' ∷ []) (b'k' ∷ []) (items (pos 2)) ≡ ok small
unfolding new_order sum_items subtotal mul wrap64 ◌+ℤ◌ ◌*ℤ◌
built = refl

takes : allowed any_uuid small ≡ true
unfolding allowed row_allowed line_allowed fits_int fits_decimal fits_varchar is_text unpadded
    characters status_allowed status_text text_eq codes
takes = refl

-- NewOrder builds an order of 2^31 pieces; order_items does not take it.
refuses :
    (new_order (b'u' ∷ []) (b'k' ∷ []) (items (pos (2 ^ 31)))
      ≡ ok (placed (b'u' ∷ []) (b'k' ∷ []) (items (pos (2 ^ 31))) (pos (1050 * 2 ^ 31))))
    × (allowed any_uuid
          (placed (b'u' ∷ []) (b'k' ∷ []) (items (pos (2 ^ 31))) (pos (1050 * 2 ^ 31)))
        ≡ false)
unfolding new_order sum_items subtotal mul wrap64 ◌+ℤ◌ ◌*ℤ◌ allowed row_allowed line_allowed
    fits_int fits_decimal fits_varchar is_text unpadded characters status_allowed status_text
    text_eq codes
refuses = (refl, refl)

-- Four characters of one to four bytes; half of a surrogate pair, and a NUL; spaces at the end.
texts :
    (is_text (b'a' ∷ 195 ∷ 169 ∷ 226 ∷ 130 ∷ 172 ∷ 240 ∷ 159 ∷ 152 ∷ 128 ∷ []) ≡ true)
    × (is_text (237 ∷ 160 ∷ 128 ∷ []) ≡ false)
    × (is_text (0 ∷ []) ≡ false)
    × (fits_varchar 2 (195 ∷ 169 ∷ b'a' ∷ b' ' ∷ b' ' ∷ []) ≡ true)
    × (fits_varchar 2 (b'a' ∷ b' ' ∷ b'b' ∷ []) ≡ false)
unfolding is_text fits_varchar characters unpadded
texts = (refl, refl, refl, refl, refl)

new_order-allowed_iff_example : (allowed any_uuid small ≡ true) ↔ Fits any_uuid small
new_order-allowed_iff_example =
    new_order-allowed_iff any_uuid (b'u' ∷ []) (b'k' ∷ []) (items (pos 2)) small built
