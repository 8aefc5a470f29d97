-- ===== src/Repo/FirstCreate/Rows.antt =====
-- Rows of lines whose prices ParseMoney reads (internal/order/repo/order-scan.go).
use mathlib.Core.Bool.{Bool-set}
use mathlib.Core.List.{Perm, foldr}
use mathlib.Core.List.Perm
use checkout_saga.Common.{◌≡◌, refl, Bool, true, false, ◌&&◌, List, [], ◌∷◌, map, All, arith}
use checkout_saga.Common.Int.{ℤ}
use checkout_saga.GoError.{Result, ok, err}
use checkout_saga.Money.{parse_money}
use checkout_saga.Money.RoundTrip.{parse_money-money_string}
use checkout_saga.Order.{OrderItem}
use checkout_saga.Repo.{item_args}
use checkout_saga.Repo.Driver.{ItemRow, ItemArgs}
use checkout_saga.Repo.Postgres.{row_args, stored_args}
use checkout_saga.Repo.Loading.{IsLine, AreLines}
use checkout_saga.Repo.Contents.{IsReadable}

parsed : Result ℤ → Bool
parsed (ok m) = true
parsed (err e) = false

parses : ItemArgs → Bool
unfolding parsed
parses a = parsed (parse_money a.price_text)

pub all_parse : List ItemArgs → Bool
unfolding parses
all_parse args = foldr (λ a b. parses a && b) true args

pub all_parse-items :
    (items : List OrderItem)
    → All IsReadable items
    → all_parse (map stored_args (map item_args items)) ≡ true
unfolding all_parse parses parsed item_args stored_args
all_parse-items [] h = refl
all_parse-items (i ∷ items) (h, hs) =
    rw (parse_money-money_string i.price h) (all_parse-items items hs)

swapped :
    (a b : ItemArgs) (x : Bool) → (parses a && (parses b && x)) ≡ (parses b && (parses a && x))
swapped a b x = ground arith

pub all_parse-Perm : {xs ys : List ItemArgs} → Perm xs ys → all_parse xs ≡ all_parse ys
unfolding all_parse
all_parse-Perm p = Perm.foldr-eq Bool-set (λ a b. parses a && b) swapped p true

read_price : (row : ItemRow) → parses (row_args row) ≡ true → (i : OrderItem) × IsLine row i
unfolding parses parsed row_args
read_price row h = go (parse_money row.price_text) refl h
  where
    go :
        (r : Result ℤ)
        → parse_money row.price_text ≡ r
        → parsed r ≡ true
        → (i : OrderItem) × IsLine row i
    go (err e) p k = cc
    go (ok m) p k = (
      record {
        id = row.id;
        order_id = row.order_id;
        product_id = row.product_id;
        quantity = row.quantity;
        price = m;
      },
      record { id = refl; order_id = refl; product_id = refl; quantity = refl; price = p },
    )

pub readable_rows :
    (rows : List ItemRow)
    → all_parse (map row_args rows) ≡ true
    → (items : List OrderItem) × AreLines rows items
unfolding all_parse
readable_rows [] h = ([], tt)
readable_rows (row ∷ rows) h =
    let (i, line) = read_price row (ground (arith, h)) in
    let (items, lines) = readable_rows rows (ground (arith, h)) in (i ∷ items, (line, lines))
