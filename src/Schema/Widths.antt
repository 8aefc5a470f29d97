-- ===== src/Schema/Widths.antt =====
-- Which orders of NewOrder the tables take: the rules of the domain imply every CHECK, and what may be
-- refused are widths and UUIDs.
use checkout_saga.Common.{
  ◌≡◌, ◌↔◌, refl, sym, subst, ◌≤◌, ◌-◌, ◌^◌, ℕ, Bool, true, false, ◌&&◌, List, [], ◌∷◌, All, arith,
}
use checkout_saga.Common.Int.{ℤ, pos, ◌≤ℤ◌, ltb_ℤ, leb_ℤ}
use checkout_saga.Common.Text.{Text, codes, text_eq}
use checkout_saga.GoError.{ok}
use checkout_saga.Order.{
  Order, OrderItem, placed, Status, pending, other, status_of, status_text, new_order,
}
use checkout_saga.Order.Guards.{IsOrderable, machine_total, new_order-IsPlaced}
use checkout_saga.Schema.{
  is_text, unpadded, characters, fits_varchar, fits_decimal, fits_int, status_allowed, row_allowed,
  line_allowed, lines_allowed, allowed,
}

-- One of the seven constants.
abbrev IsDeclared : Status → Type 0
IsDeclared (other _) = ⊥
IsDeclared _ = Unit

pub and_iff : (a b : Bool) → ((a && b) ≡ true) ↔ ((a ≡ true) × (b ≡ true))
and_iff true b = (λ h. (refl, h), λ h. h.1)
and_iff false b = (λ h. cc, λ h. h.0)

fits_int_iff : (n : ℤ) → pos 1 ≤ℤ n → (fits_int n ≡ true) ↔ (n ≤ℤ pos (2 ^ 31 - 1))
unfolding fits_int
fits_int_iff n h = ground arith

fits_decimal_iff : (n : ℤ) → pos 0 ≤ℤ n → (fits_decimal 10 n ≡ true) ↔ (n ≤ℤ pos (10 ^ 10 - 1))
unfolding fits_decimal
fits_decimal_iff n h = ground arith

fits_varchar_iff :
    (n : ℕ) (t : Text)
    → (fits_varchar n t ≡ true) ↔ ((is_text t ≡ true) × (characters (unpadded t) ≤ n))
unfolding fits_varchar
fits_varchar_iff n t = ground arith

above_zero : (n : ℤ) → pos 1 ≤ℤ n → ltb_ℤ (pos 0) n ≡ true
above_zero n h = ground arith

not_below_zero : (n : ℤ) → pos 0 ≤ℤ n → leb_ℤ (pos 0) n ≡ true
not_below_zero n h = ground arith

pending_allowed :
    (fits_varchar 30 (status_text pending) ≡ true) × (status_allowed (status_text pending) ≡ true)
unfolding fits_varchar is_text unpadded characters status_allowed status_text text_eq codes
pending_allowed = (refl, refl)

-- The CHECK on the status column lets in exactly the texts that scanOrder turns into one of the seven
-- constants.
status_allowed_iff : (t : Text) → (status_allowed t ≡ true) ↔ IsDeclared (status_of t)
unfolding status_allowed status_of
status_allowed_iff t = ground arith

module _ (is_uuid : Text → Bool) where
  -- A line whose numbers fit their columns.
  pub record LineFits (i : OrderItem) : Type 0 where
    pub product : is_uuid i.product_id ≡ true
    pub quantity : i.quantity ≤ℤ pos (2 ^ 31 - 1)
    pub price : i.price ≤ℤ pos (10 ^ 10 - 1)

  -- An order whose values fit their columns.
  pub record Fits (o : Order) : Type 0 where
    pub user : is_uuid o.user_id ≡ true
    pub total : o.total_amount ≤ℤ pos (10 ^ 10 - 1)
    pub encoded : is_text o.idempotency_key ≡ true
    pub key : characters (unpadded o.idempotency_key) ≤ 255
    pub lines : All LineFits o.items

  line_allowed_iff : (i : OrderItem) → IsOrderable i → (line_allowed is_uuid i ≡ true) ↔ LineFits i
  unfolding line_allowed
  line_allowed_iff i h = ground (
    arith,
    fits_int_iff i.quantity h.quantity,
    fits_decimal_iff i.price h.price,
    above_zero i.quantity h.quantity,
    not_below_zero i.price h.price,
  )

  lines_allowed_iff :
      (items : List OrderItem)
      → All IsOrderable items
      → (lines_allowed is_uuid items ≡ true) ↔ All LineFits items
  lines_allowed_iff [] h = (λ _. tt, λ _. refl)
  lines_allowed_iff (i ∷ items) (h, hs) =
      let one = line_allowed_iff i h in
      let rest = lines_allowed_iff items hs in
      let both = and_iff (line_allowed is_uuid i) (lines_allowed is_uuid items) in
      (λ e. let (a, b) = both.0 e in (one.0 a, rest.0 b), λ (a, b). both.1 (one.1 a, rest.1 b))

  placed-allowed_iff :
      (user_id key : Text) (items : List OrderItem) (total : ℤ)
      → All IsOrderable items
      → pos 1 ≤ℤ total
      → (allowed is_uuid (placed user_id key items total) ≡ true)
        ↔ Fits (placed user_id key items total)
  unfolding allowed row_allowed fits_int
  placed-allowed_iff user_id key items total orderable positive =
      let (short, known) = pending_allowed in
      let lines = lines_allowed_iff items orderable in
      let decimal = fits_decimal_iff total (omega (arith, positive)) in
      let varchar = fits_varchar_iff 255 key in
      let above = above_zero total positive in
      (
        λ e. record {
          user = ground arith;
          total = decimal.0 (ground arith);
          encoded = (varchar.0 (ground arith)).0;
          key = (varchar.0 (ground arith)).1;
          lines = lines.0 (ground arith);
        },
        λ f. ground (
          arith,
          short,
          known,
          above,
          lines.1 f.lines,
          decimal.1 f.total,
          varchar.1 (f.encoded, f.key),
          f.user,
        ),
      )

  -- For an order that NewOrder builds, the columns of the tables take its row and its lines
  -- exactly when its owner and its products are UUIDs, its key is UTF-8 without NUL and has at
  -- most 255 characters but for spaces at its end, its total and its prices are below 10^10 cents,
  -- and its quantities are below 2^31.
  pub new_order-allowed_iff :
      (user_id key : Text) (items : List OrderItem) (o : Order)
      → new_order user_id key items ≡ ok o
      → (allowed is_uuid o ≡ true) ↔ Fits o
  unfolding allowed row_allowed fits_int
  new_order-allowed_iff user_id key items o h =
      let p = new_order-IsPlaced user_id key items o h in
      subst (λ x. (allowed is_uuid x ≡ true) ↔ Fits x) (sym p.built)
        (placed-allowed_iff user_id key items (machine_total (pos 0) items) p.orderable p.positive)
