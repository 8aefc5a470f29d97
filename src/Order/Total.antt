-- ===== src/Order/Total.antt =====
-- The total of an order against the exact sum of price times quantity.
use checkout_saga.Common.{
  ℕ, ◌+◌, ◌*◌, ◌≤◌, ◌<◌, ◌≡◌, ◌≢◌, refl, sym, ap, ◌∙◌, List, [], ◌∷◌, All, arith,
}
use checkout_saga.Common.Int.{
  ℤ, pos, ◌≤ℤ◌, wrap64, wrap64-eq_self, wrap64-IsInt64, ◌+ℤ◌, ◌*ℤ◌, pos_part, max_int64,
}
use checkout_saga.Common.Text.{Text}
use checkout_saga.GoError.{ok}
use checkout_saga.Money.{mul}
use checkout_saga.Order.{Order, OrderItem, subtotal, new_order}
use checkout_saga.Order.Guards.{IsOrderable, machine_total, new_order-IsPlaced}

-- The sum with no bound on the numbers.
abbrev pub exact_total : List OrderItem → ℕ
exact_total [] = 0
exact_total (i ∷ items) = pos_part i.price * pos_part i.quantity + exact_total items

-- Wrapping each summand and each sum is wrapping the true sum.
wrap64-add : (a b : ℕ) → wrap64 (wrap64 (pos a) +ℤ wrap64 (pos b)) ≡ wrap64 (pos (a + b))
unfolding wrap64 ◌+ℤ◌
wrap64-add a b = ground arith

pos_of_nonneg : (z : ℤ) → pos 0 ≤ℤ z → z ≡ pos (pos_part z)
pos_of_nonneg z h = ground arith

subtotal-wrap :
    (i : OrderItem)
    → IsOrderable i
    → subtotal i ≡ wrap64 (pos (pos_part i.price * pos_part i.quantity))
unfolding subtotal mul ◌*ℤ◌
subtotal-wrap i h = rw (pos_of_nonneg i.price h.price, pos_of_nonneg i.quantity (omega arith)) refl

machine_total-wrap :
    (items : List OrderItem) (n : ℕ)
    → All IsOrderable items
    → machine_total (wrap64 (pos n)) items ≡ wrap64 (pos (n + exact_total items))
machine_total-wrap [] n h = ap (λ k. wrap64 (pos k)) (omega arith)
machine_total-wrap (i ∷ items) n (h, hs) =
    let one = pos_part i.price * pos_part i.quantity in
    ap (λ s. machine_total (wrap64 (wrap64 (pos n) +ℤ s)) items) (subtotal-wrap i h)
    ∙ ap (λ s. machine_total s items) (wrap64-add n one)
    ∙ machine_total-wrap items (n + one) hs
    ∙ ap (λ k. wrap64 (pos k)) (omega arith)

machine_total-exact :
    (items : List OrderItem)
    → All IsOrderable items
    → machine_total (pos 0) items ≡ wrap64 (pos (exact_total items))
machine_total-exact items h =
    ap (λ z. machine_total z items) (sym (wrap64-eq_self (pos 0) (omega arith)))
    ∙ machine_total-wrap items 0 h
    ∙ ap (λ k. wrap64 (pos k)) (omega arith)

wrap64-overflow : (n : ℕ) → max_int64 < n → wrap64 (pos n) ≢ pos n
wrap64-overflow n h e = absurd (omega (arith, ap pos_part e, (wrap64-IsInt64 (pos n)).0))

-- The total of a new order is the exact sum of price times quantity modulo 2^64 as an int64: the
-- exact sum where that fits into int64, another number where not.
pub new_order_total :
    (user_id key : Text) (items : List OrderItem) (o : Order)
    → new_order user_id key items ≡ ok o
    → (o.total_amount ≡ wrap64 (pos (exact_total items)))
      × (exact_total items ≤ max_int64 → o.total_amount ≡ pos (exact_total items))
      × (max_int64 < exact_total items → o.total_amount ≢ pos (exact_total items))
new_order_total user_id key items o h =
    let p = new_order-IsPlaced user_id key items o h in
    let total : o.total_amount ≡ wrap64 (pos (exact_total items)) =
      ap (λ (q : Order). q.total_amount) p.built ∙ machine_total-exact items p.orderable in
    (
      total,
      λ small. total ∙ wrap64-eq_self (pos (exact_total items)) (small, omega arith),
      λ large e. wrap64-overflow (exact_total items) large (sym total ∙ e),
    )
