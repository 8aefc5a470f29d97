-- ===== src/Repo/Loading.antt =====
-- What the two load functions return: the order of a stored row, with the lines stored for it.
use mathlib.Core.List.{append-nil, append_assoc}
use checkout_saga.Common.{
  ◌≡◌, ◌≢◌, refl, sym, ◌∙◌, subst, List, [], ◌∷◌, ◌++◌, Option, none, some, map, arith,
}
use checkout_saga.Common.Int.{ℤ}
use checkout_saga.Common.Text.{Text}
use checkout_saga.GoError.{
  annotate-eq-ok, ok-injective, Error, Result, ok, err, >>=-eq-ok, annotate,
}
use checkout_saga.Money.{parse_money}
use checkout_saga.Order.{Order, OrderItem}
use checkout_saga.Repo.{
  scan_order, scan_item, read_items, check_rows, attach_items, load_order_by_id, load_order_by_key,
  order_of_row,
}
use checkout_saga.Repo.Driver.{OrderRow, ItemRow, Querier}
use checkout_saga.Repo.Postgres.{Tables, find_key, find_id, IsFoundById, Reads}
use checkout_saga.Repo.Keys.{find_id_of_find_key}

pub record IsLine (row : ItemRow) (i : OrderItem) : Type 0 where
  pub id : i.id ≡ row.id
  pub order_id : i.order_id ≡ row.order_id
  pub product_id : i.product_id ≡ row.product_id
  pub quantity : i.quantity ≡ row.quantity
  pub price : parse_money row.price_text ≡ ok i.price

abbrev pub AreLines : List ItemRow → List OrderItem → Type 0
AreLines [] [] = Unit
AreLines (row ∷ rows) (i ∷ items) = IsLine row i × AreLines rows items
AreLines _ _ = ⊥

-- An order as it is stored in a row and its lines.
pub record IsStored (row : OrderRow) (rows : List ItemRow) (o : Order) : Type 0 where
  pub total : parse_money row.total_text ≡ ok o.total_amount
  pub fields : o ≡ record (order_of_row row o.total_amount) { items = o.items }
  pub lines : AreLines rows o.items

scan_item-ok :
    (scan : Result ItemRow) (i : OrderItem)
    → scan_item scan ≡ ok i
    → (row : ItemRow) × (scan ≡ ok row) × IsLine row i
unfolding scan_item
scan_item-ok (err e) i h = cc
scan_item-ok (ok row) i h =
    let (price, read, made) =
      >>=-eq-ok (annotate "attachItems: price: " (parse_money row.price_text)) _ h in
    let parsed = annotate-eq-ok "attachItems: price: " (parse_money row.price_text) read in
    (
      row,
      refl,
      record {
        id = ground arith;
        order_id = ground arith;
        product_id = ground arith;
        quantity = ground arith;
        price = ground arith;
      },
    )

read_items-ok :
    (scans : List (Result ItemRow)) (acc items : List OrderItem)
    → read_items acc scans ≡ ok items
    → (l : List ItemRow) × (read : List OrderItem) × (scans ≡ map ok l)
      × (items ≡ acc ++ read)
      × AreLines l read
unfolding read_items
read_items-ok [] acc items h = ([], [], refl, ok-injective (sym h) ∙ sym (append-nil acc), tt)
read_items-ok (scan ∷ scans) acc items h =
    let (i, scanned, rest) = >>=-eq-ok (scan_item scan) _ h in
    let (row, is_row, line) = scan_item-ok scan i scanned in
    let (l, read, same, all, lines) = read_items-ok scans (acc ++ i ∷ []) items rest in
    (row ∷ l, i ∷ read, cc, all ∙ append_assoc acc (i ∷ []) read, (line, lines))

pub scan_order-ok :
    (scanned : Result OrderRow) (o : Order)
    → scan_order scanned ≡ ok o
    → (row : OrderRow) × (total : ℤ) × (scanned ≡ ok row)
      × (parse_money row.total_text ≡ ok total)
      × (o ≡ order_of_row row total)
unfolding scan_order
scan_order-ok (err e) o h = ground arith
scan_order-ok (ok row) o h =
    let (total, read, made) =
      >>=-eq-ok (annotate "scanOrder: total_amount: " (parse_money row.total_text)) _ h in
    (
      row,
      total,
      refl,
      annotate-eq-ok "scanOrder: total_amount: " (parse_money row.total_text) read,
      ok-injective (sym made),
    )

check_rows-ok :
    (ended : Option Error) (items checked : List OrderItem)
    → check_rows ended items ≡ ok checked
    → (ended ≡ none) × (checked ≡ items)
unfolding check_rows
check_rows-ok none items checked h = (refl, ok-injective (sym h))
check_rows-ok (some e) items checked h = cc

module _ {q : Querier} {t : Tables} (reads : Reads q t) where
  pub attach_items-ok :
      (order o : Order)
      → find_id order.id t.orders ≢ none
      → attach_items q order ≡ ok o
      → (items : List OrderItem) × (o ≡ record order { items = items })
        × AreLines (t.items order.id) items
  unfolding attach_items
  attach_items-ok order o present h =
      let (rows, queried, h1) =
        >>=-eq-ok (annotate "attachItems: query: " (q.items_of order.id)) _ h in
      let (items, read, h2) = >>=-eq-ok (read_items [] rows.scans) _ h1 in
      let (checked, passed, made) = >>=-eq-ok (check_rows rows.ended items) _ h2 in
      let (ended, same) = check_rows-ok rows.ended items checked passed in
      let (l, all, scans, is_all, lines) = read_items-ok rows.scans [] items read in
      let stored =
        reads.items_ok order.id rows l present
          (annotate-eq-ok "attachItems: query: " (q.items_of order.id) queried) ended scans in
      (
        checked,
        ok-injective (sym made),
        subst (λ k. AreLines (t.items order.id) k) (sym (same ∙ is_all))
            (subst (λ rs. AreLines rs all) stored lines),
      )

  pub load-IsStored :
      (row : OrderRow) (total : ℤ) (o : Order)
      → find_id row.id t.orders ≢ none
      → parse_money row.total_text ≡ ok total
      → attach_items q (order_of_row row total) ≡ ok o
      → IsStored row (t.items row.id) o
  unfolding order_of_row
  load-IsStored row total o present parsed attached =
      let (items, made, lines) = attach_items-ok (order_of_row row total) o present attached in
      record { total = rw made parsed; fields = rw made refl; lines = rw made lines }

  -- What loadOrderByID returns is stored under the id.
  pub load_order_by_id-IsStored :
      (id : Text) (o : Order)
      → load_order_by_id q id ≡ ok o
      → (row : OrderRow) × IsFoundById t id row × IsStored row (t.items row.id) o
  unfolding load_order_by_id
  load_order_by_id-IsStored id o h =
      let (order, scanned, h1) =
        >>=-eq-ok (annotate "loadOrderByID: " (scan_order (q.order_by_id id))) _ h in
      let (row, total, is_row, parsed, made) =
        scan_order-ok (q.order_by_id id) order (annotate-eq-ok "loadOrderByID: " _ scanned) in
      (
        row,
        reads.by_id_ok id row is_row,
        load-IsStored row total o (λ e. cc (e, (reads.by_id_ok id row is_row).there)) parsed
            (subst (λ x. attach_items q x ≡ ok o) made (annotate-eq-ok "loadOrderByID: " _ h1)),
      )

  -- What loadOrderByKey returns is stored under the key.
  pub load_order_by_key-IsStored :
      (key : Text) (o : Order)
      → load_order_by_key q key ≡ ok o
      → (row : OrderRow) × (find_key key t.orders ≡ some row) × IsStored row (t.items row.id) o
  unfolding load_order_by_key
  load_order_by_key-IsStored key o h =
      let (order, scanned, h1) =
        >>=-eq-ok (annotate "loadOrderByKey: " (scan_order (q.order_by_key key))) _ h in
      let (row, total, is_row, parsed, made) =
        scan_order-ok (q.order_by_key key) order (annotate-eq-ok "loadOrderByKey: " _ scanned) in
      (
        row,
        reads.by_key_ok key row is_row,
        load-IsStored row total o
            (find_id_of_find_key key t.orders row (reads.by_key_ok key row is_row)) parsed
            (subst (λ x. attach_items q x ≡ ok o) made (annotate-eq-ok "loadOrderByKey: " _ h1)),
      )
