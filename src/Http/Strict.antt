-- ===== src/Http/Strict.antt =====
-- A validator that tests the tags of createOrderRequest (dto.go), with a product id that is not empty
-- in place of a uuid.
use checkout_saga.Common.{
  ◌≡◌, ◌≢◌, Bool, true, false, not, ◌&&◌, List, [], ◌∷◌, Option, none, some, arith, All,
  if◌then◌else◌,
}
use checkout_saga.Common.Int.{pos, leb_ℤ}
use checkout_saga.Common.Text.{Text, is_empty}
use checkout_saga.GoError.{Error, foreign}
use checkout_saga.Http.Wire.{CreateOrderItem, Validator}
use checkout_saga.Http.Validation.{IsValid, IsValidator}

abbrev pub valid_item : CreateOrderItem → Bool
valid_item i = not (is_empty i.product_id) && (leb_ℤ (pos 1) i.quantity && leb_ℤ (pos 0) i.price)

abbrev pub all_valid : List CreateOrderItem → Bool
all_valid [] = true
all_valid (i ∷ items) = valid_item i && all_valid items

abbrev pub strict_order : List CreateOrderItem → Option Error
strict_order [] = some (foreign "min")
strict_order (i ∷ items) = if all_valid (i ∷ items) then none else some (foreign "dive")

abbrev pub strict : Validator
strict = record { order = strict_order; login = λ id. none; id = λ id. none }

is_empty-false : (t : Text) → is_empty t ≡ false → t ≢ []
is_empty-false [] h = cc
is_empty-false (c ∷ t) h = λ e. cc

valid_item-IsValid : (i : CreateOrderItem) → valid_item i ≡ true → IsValid i
valid_item-IsValid i h = record {
  product = is_empty-false i.product_id (ground arith);
  quantity = ground arith;
  price = ground arith;
}

all_valid-All : (items : List CreateOrderItem) → all_valid items ≡ true → All IsValid items
all_valid-All [] h = tt
all_valid-All (i ∷ items) h =
    (valid_item-IsValid i (ground arith), all_valid-All items (ground arith))

strict-some_item : (items : List CreateOrderItem) → strict_order items ≡ none → items ≢ []
strict-some_item [] h = cc
strict-some_item (i ∷ items) h = λ e. cc

strict-each_item : (items : List CreateOrderItem) → strict_order items ≡ none → All IsValid items
strict-each_item [] h = cc
strict-each_item (i ∷ items) h = all_valid-All (i ∷ items) (ground arith)

pub strict-IsValidator : IsValidator strict
strict-IsValidator = record { some_item = strict-some_item; each_item = strict-each_item }
