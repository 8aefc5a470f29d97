-- ===== src/Repo/Absence.antt =====
-- Where the reads of a stored order fail, and that ErrOrderNotFound means an absent row.
use checkout_saga.Common.{
  ◌≡◌, refl, sym, ap, ◌∙◌, true, false, List, [], ◌∷◌, ◌++◌, Option, none, some, All, arith,
  Bool-cases, inl, inr, String,
}
use checkout_saga.Common.Text.{Text}
use checkout_saga.GoError.{
  annotate-eq-ok, Error, base, prefixed, is_error, no_rows, order_not_found, invalid_money, Result,
  ok, err, ◌>>=◌, annotate,
}
use checkout_saga.Money.{parse_money}
use checkout_saga.Money.Errors.{parse_money-is_error}
use checkout_saga.Order.{Order, OrderItem}
use checkout_saga.Repo.{
  scan_order, scan_item, read_items, check_rows, attach_items, load_order_by_id,
}
use checkout_saga.Repo.Driver.{OrderRow, ItemRow, Querier}
use checkout_saga.Repo.Postgres.{Tables, find_id, Reads}

-- A failure that is not ErrOrderNotFound.
abbrev IsOther {ℓ} : {A : Type ℓ} → Result A → Type 0
IsOther r = elim r [ ok _ ↦ Unit | err e ↦ is_error order_not_found e ≡ false ]

pub not_found-prefixed :
    (before : String) (e : Error)
    → is_error order_not_found (prefixed before e) ≡ is_error order_not_found e
unfolding is_error
not_found-prefixed before e = refl

IsOther-annotate {ℓ} :
    {A : Type ℓ} (before : String) (r : Result A) → IsOther r → IsOther (annotate before r)
IsOther-annotate before (ok a) h = tt
IsOther-annotate before (err e) h = not_found-prefixed before e ∙ h

IsOther-bind {ℓ κ} :
    {A : Type ℓ} {B : Type κ} (m : Result A) (f : A → Result B)
    → IsOther m
    → ((a : A) → m ≡ ok a → IsOther (f a))
    → IsOther (m >>= f)
IsOther-bind (ok a) f h k = k a refl
IsOther-bind (err e) f h k = h

IsOther-of {ℓ} :
    {A : Type ℓ} (r : Result A)
    → ((e : Error) → r ≡ err e → is_error order_not_found e ≡ false)
    → IsOther r
IsOther-of (ok a) h = tt
IsOther-of (err e) h = h e refl

not_found-money : is_error order_not_found (base invalid_money) ≡ false
unfolding is_error
not_found-money = refl

IsOther-parse_money : (t : Text) → IsOther (parse_money t)
IsOther-parse_money t =
    IsOther-of (parse_money t) (λ e h. parse_money-is_error order_not_found t e h ∙ not_found-money)

IsOther-scan_item : (scan : Result ItemRow) → IsOther scan → IsOther (scan_item scan)
unfolding scan_item
IsOther-scan_item (err e) h = not_found-prefixed "attachItems: scan: " e ∙ h
IsOther-scan_item (ok row) h =
    IsOther-bind (annotate "attachItems: price: " (parse_money row.price_text)) _
      (IsOther-annotate "attachItems: price: " (parse_money row.price_text)
        (IsOther-parse_money row.price_text))
      (λ price read. tt)

IsOther-read_items :
    (scans : List (Result ItemRow)) (acc : List OrderItem)
    → All (λ scan. (e : Error) → scan ≡ err e → is_error order_not_found e ≡ false) scans
    → IsOther (read_items acc scans)
unfolding read_items
IsOther-read_items [] acc h = tt
IsOther-read_items (scan ∷ scans) acc (h, hs) =
    IsOther-bind (scan_item scan) _ (IsOther-scan_item scan (IsOther-of scan h))
      (λ item _. IsOther-read_items scans (acc ++ item ∷ []) hs)

IsOther-check_rows :
    (ended : Option Error) (items : List OrderItem)
    → ((e : Error) → ended ≡ some e → is_error order_not_found e ≡ false)
    → IsOther (check_rows ended items)
unfolding check_rows
IsOther-check_rows none items h = tt
IsOther-check_rows (some e) items h = not_found-prefixed "attachItems: rows: " e ∙ h e refl

false_of_IsOther {ℓ} :
    {A : Type ℓ} (r : Result A) (e : Error)
    → IsOther r
    → r ≡ err e
    → is_error order_not_found e ≡ false
false_of_IsOther (ok a) e h p = cc
false_of_IsOther (err e0) e h p =
    let same : e0 ≡ e = cc in ap (is_error order_not_found) (sym same) ∙ h

-- scanOrder reports ErrOrderNotFound where the driver reports that there is no row.
scan_order-not_found :
    (scanned : Result OrderRow) (e : Error)
    → ((e0 : Error) → scanned ≡ err e0 → is_error order_not_found e0 ≡ false)
    → scan_order scanned ≡ err e
    → is_error order_not_found e ≡ true
    → (e0 : Error) × (scanned ≡ err e0) × (is_error no_rows e0 ≡ true)
unfolding scan_order
scan_order-not_found (ok row) e foreign h n = cc (
  n,
  false_of_IsOther _ e
      (IsOther-bind (annotate "scanOrder: total_amount: " (parse_money row.total_text)) _
        (IsOther-annotate "scanOrder: total_amount: " (parse_money row.total_text)
          (IsOther-parse_money row.total_text))
        (λ total read. tt))
      h,
)
scan_order-not_found (err e0) e foreign h n = elim (Bool-cases (is_error no_rows e0)) [
  | inl absent ↦ (e0, refl, absent)
  | inr other ↦
      let same : prefixed "scanOrder: " e0 ≡ e = ground arith in
      cc (
        n,
        ap (is_error order_not_found) same,
        not_found-prefixed "scanOrder: " e0,
        foreign e0 refl,
      )
]

module _ {q : Querier} {t : Tables} (reads : Reads q t) where
  IsOther-attach_items : (order : Order) → IsOther (attach_items q order)
  unfolding attach_items
  IsOther-attach_items order =
      let query : String = "attachItems: query: " in
      IsOther-bind (annotate query (q.items_of order.id)) _
        (IsOther-annotate query (q.items_of order.id)
          (IsOther-of (q.items_of order.id) (reads.items_foreign order.id)))
        (λ rows got.
          let queried = annotate-eq-ok query (q.items_of order.id) got in
          IsOther-bind (read_items [] rows.scans) _
            (IsOther-read_items rows.scans [] (reads.scans_foreign order.id rows queried))
            (λ items _.
              IsOther-bind (check_rows rows.ended items) _
                (IsOther-check_rows rows.ended items
                  (λ e ended. reads.ended_foreign order.id rows e queried ended))
                (λ checked _. tt)))

  -- The one way to ErrOrderNotFound is a row that is not there.
  pub load_order_by_id-not_found :
      (id : Text) (e : Error)
      → load_order_by_id q id ≡ err e
      → is_error order_not_found e ≡ true
      → find_id id t.orders ≡ none
  unfolding load_order_by_id
  load_order_by_id-not_found id e h n = go (scan_order (q.order_by_id id)) refl h
    where
      go :
          (m : Result Order)
          → scan_order (q.order_by_id id) ≡ m
          → (annotate "loadOrderByID: " m
              >>= (λ order. annotate "loadOrderByID: " (attach_items q order)))
            ≡ err e
          → find_id id t.orders ≡ none
      go (ok order) s p = cc (
        n,
        false_of_IsOther _ e
            (IsOther-annotate "loadOrderByID: " (attach_items q order) (IsOther-attach_items order))
            p,
      )
      go (err e1) s p =
          let same : prefixed "loadOrderByID: " e1 ≡ e = cc in
          let (e0, scanned, absent) =
            scan_order-not_found (q.order_by_id id) e1 (reads.by_id_foreign id) s (
              sym (not_found-prefixed "loadOrderByID: " e1)
              ∙ ap (is_error order_not_found) same
              ∙ n) in
          reads.by_id_none id e0 scanned absent
