-- ===== src/Schema.antt =====
-- migrations/order/000001_orders.up.sql: what the types of the columns and the CHECK constraints of
-- orders and order_items let in, for the values that internal/order/repo/order-postgres.go inserts.
-- UNIQUE and PRIMARY KEY are laws of `Repo.Postgres`; whether a text is a UUID is a parameter. The
-- encoding of the database is UTF8.
pub mod Widths
mod Tests
use checkout_saga.Common.{
  zero, ◌==◌, Option, none, some, ℕ, suc, ◌+◌, ◌^◌, Bool, true, false, ◌&&◌, ◌||◌, List, [], ◌∷◌,
  ltb, leb, if◌then◌else◌, String,
}
use checkout_saga.Common.Int.{ℤ, pos, pos_part, neg_part, ltb_ℤ, leb_ℤ}
use checkout_saga.Common.Text.{Text, codes, text_eq, is_empty}
use checkout_saga.Order.{Order, OrderItem, status_text}

-- The characters of a text in UTF-8: its bytes but those that continue a character.
unfoldable pub characters : Text → ℕ
characters [] = 0
characters (c ∷ t) = let rest = characters t in if leb 128 c && ltb c 192 then rest else suc rest

-- How many bytes of a character are still to come, and the bounds of the next one.
pub record Pending : Type 0 where
  pub left : ℕ
  pub lowest : ℕ
  pub highest : ℕ

abbrev between : ℕ → ℕ → ℕ → Bool
between a b c = leb a c && leb c b

-- The first byte of a character in UTF-8, but NUL, which a text of PostgreSQL does not hold.
abbrev pub lead : ℕ → Option Pending
lead c =
    if between 1 127 c
    then some (record { left = 0; lowest = 0; highest = 0 })
    else if between 194 223 c
    then some (record { left = 1; lowest = 128; highest = 191 })
    else if c == 224
    then some (record { left = 2; lowest = 160; highest = 191 })
    else if c == 237
    then some (record { left = 2; lowest = 128; highest = 159 })
    else if between 225 239 c
    then some (record { left = 2; lowest = 128; highest = 191 })
    else if c == 240
    then some (record { left = 3; lowest = 144; highest = 191 })
    else if between 241 243 c
    then some (record { left = 3; lowest = 128; highest = 191 })
    else if c == 244
    then some (record { left = 3; lowest = 128; highest = 143 })
    else none

abbrev pub next_byte : ℕ → Pending → ℕ → Option Pending
next_byte zero p c = lead c
next_byte (suc n) p c =
    if between p.lowest p.highest c
    then some (record { left = n; lowest = 128; highest = 191 })
    else none

abbrev pub follows : Option Pending → Text → Bool
follows none t = false
follows (some p) [] = p.left == 0
follows (some p) (c ∷ t) = follows (next_byte p.left p c) t

-- A text that a database in UTF-8 takes.
unfoldable pub is_text : Text → Bool
is_text t = follows (some (record { left = 0; lowest = 0; highest = 0 })) t

-- The text without the spaces at its end.
unfoldable pub unpadded : Text → Text
unpadded [] = []
unpadded (c ∷ t) = let rest = unpadded t in if is_empty rest && c == b' ' then [] else c ∷ rest

-- VARCHAR(n): characters beyond the n-th one are refused, unless they are spaces, which are cut off.
unfoldable pub fits_varchar : ℕ → Text → Bool
fits_varchar n t = is_text t && leb (characters (unpadded t)) n

-- DECIMAL(precision, 2), for an amount of cents
unfoldable pub fits_decimal : ℕ → ℤ → Bool
fits_decimal precision cents = ltb (pos_part cents + neg_part cents) (10 ^ precision)

-- INT
unfoldable pub fits_int : ℤ → Bool
fits_int n = ltb (pos_part n) (2 ^ 31) && leb (neg_part n) (2 ^ 31)

abbrev is_in : Text → List String → Bool
is_in t [] = false
is_in t (word ∷ words) = text_eq t (codes word) || is_in t words

-- CHECK (status IN (…))
unfoldable pub status_allowed : Text → Bool
status_allowed t = is_in t (
    "PENDING" ∷ "INVENTORY_RESERVED" ∷ "PAYMENT_PROCESSING" ∷ "COMPLETED" ∷ "PAYMENT_FAILED"
    ∷ "INVENTORY_INSUFFICIENT" ∷ "CANCELLED" ∷ [])

module _ (is_uuid : Text → Bool) where
  -- The columns of orders.
  unfoldable pub row_allowed : Order → Bool
  row_allowed o =
      is_uuid o.user_id
      && fits_decimal 10 o.total_amount
      && ltb_ℤ (pos 0) o.total_amount
      && fits_varchar 30 (status_text o.status)
      && status_allowed (status_text o.status)
      && fits_varchar 255 o.idempotency_key
      && fits_int o.version

  -- The columns of order_items.
  unfoldable pub line_allowed : OrderItem → Bool
  line_allowed i =
      is_uuid i.product_id
      && fits_int i.quantity
      && ltb_ℤ (pos 0) i.quantity
      && fits_decimal 10 i.price
      && leb_ℤ (pos 0) i.price

  abbrev lines_allowed : List OrderItem → Bool
  lines_allowed [] = true
  lines_allowed (i ∷ items) = line_allowed i && lines_allowed items

  -- The row of an order and its lines.
  unfoldable pub allowed : Order → Bool
  allowed o = row_allowed o && lines_allowed o.items
