-- ===== src/Repo/Contents.antt =====
-- What a newly created order holds, compared with the order that was to be stored.
use mathlib.Core.List.{Perm}
use mathlib.Core.List.Perm
use checkout_saga.Common.{
  ◌^◌, ◌<◌, ◌≡◌, refl, sym, ap, ◌∙◌, subst, Bool, true, List, [], ◌∷◌, map, All, arith,
}
use checkout_saga.Common.Int.{ℤ, pos}
use checkout_saga.Common.Text.{Text}
use checkout_saga.GoError.{Result, ok, err}
use checkout_saga.Money.{Money, parse_money, money_string}
use checkout_saga.Money.RoundTrip.{magnitude, parse_money-money_string}
use checkout_saga.Money.Readable.{parse_money-money_string_iff}
use checkout_saga.Order.{Order, OrderItem, status_of, status_text}
use checkout_saga.Repo.{item_args, create, order_of_row}
use checkout_saga.Repo.Driver.{ItemRow, ItemArgs, PgDriver}
use checkout_saga.Repo.Postgres.{Tables, row_args, IsPostgres, stored_args, SameUuid, uuid_digits}
use checkout_saga.Repo.Loading.{IsLine, AreLines}
use checkout_saga.Repo.Creating.{IsCreated, Outcome, created, replayed, failed, unknown}
use checkout_saga.Repo.Outcomes.{create-OutcomeAt}

-- A line without the ids that the database assigns, its product by the digits of its UUID.
pub record Line : Type 0 where
  pub product_id : Text
  pub quantity : ℤ
  pub price : Money

abbrev pub line : OrderItem → Line
line i = record { product_id = uuid_digits i.product_id; quantity = i.quantity; price = i.price }

price_or_zero : Result Money → Money
price_or_zero (ok m) = m
price_or_zero (err e) = pos 0

line_of_args : ItemArgs → Line
line_of_args a = record {
  product_id = a.product_id;
  quantity = a.quantity;
  price = price_or_zero (parse_money a.price_text);
}

line_of_args-row :
    (row : ItemRow) (i : OrderItem) → IsLine row i → line_of_args (row_args row) ≡ line i
unfolding line_of_args price_or_zero row_args
line_of_args-row row i h = ground (arith, h.price, h.product_id, h.quantity)

lines-of_rows :
    (rows : List ItemRow) (items : List OrderItem)
    → AreLines rows items
    → map line_of_args (map row_args rows) ≡ map line items
lines-of_rows [] [] h = refl
lines-of_rows [] (i ∷ items) h = absurd h
lines-of_rows (row ∷ rows) [] h = absurd h
lines-of_rows (row ∷ rows) (i ∷ items) (h, hs) =
    cc (line_of_args-row row i h, lines-of_rows rows items hs)

abbrev pub IsReadable : OrderItem → Type 0
IsReadable i = magnitude i.price < 10 ^ 17

line_of_args-item :
    (i : OrderItem) → IsReadable i → line_of_args (stored_args (item_args i)) ≡ line i
unfolding line_of_args price_or_zero item_args stored_args
line_of_args-item i h = ground (arith, parse_money-money_string i.price h)

lines-of_items :
    (items : List OrderItem)
    → All IsReadable items
    → map line_of_args (map stored_args (map item_args items)) ≡ map line items
lines-of_items [] h = refl
lines-of_items (i ∷ items) (h, hs) = cc (line_of_args-item i h, lines-of_items items hs)

-- The text of an amount in the table, read back.
pub stored-total :
    (text : Text) (a m : Money) → text ≡ money_string a → parse_money text ≡ ok m → m ≡ a
stored-total text a m h read =
    ((parse_money-money_string_iff a m).0 (ap parse_money (sym h) ∙ read)).1

-- The rows of a list of lines, in some order, read back.
pub stored-lines :
    (rows : List ItemRow) (items read : List OrderItem)
    → AreLines rows read
    → Perm (map row_args rows) (map stored_args (map item_args items))
    → All IsReadable items
    → Perm (map line read) (map line items)
stored-lines rows items read lines p readable =
    subst (λ l. Perm l (map line items)) (lines-of_rows rows read lines)
      (subst (λ l. Perm (map line_of_args (map row_args rows)) l) (lines-of_items items readable)
        (Perm.map line_of_args p))

-- The stored order agrees with the requested one, UUIDs by their digits.
pub record Agrees (order o : Order) : Type 0 where
  pub user_id : SameUuid o.user_id order.user_id
  pub total : o.total_amount ≡ order.total_amount
  pub key : o.idempotency_key ≡ order.idempotency_key
  pub status : o.status ≡ status_of (status_text order.status)
  pub lines : All IsReadable order.items → Perm (map line o.items) (map line order.items)

created-Agrees : (order o : Order) (t t' : Tables) → IsCreated order t t' o → Agrees order o
unfolding order_of_row
created-Agrees order o t t' c =
    let f = c.stored.fields in
    record {
      user_id = ap (λ (x : Order). uuid_digits x.user_id) f ∙ c.user_id_lem;
      total =
          stored-total c.row.total_text order.total_amount o.total_amount c.total_lem
            c.stored.total;
      key = ap (λ (x : Order). x.idempotency_key) f ∙ c.key_lem;
      status = ap (λ (x : Order). x.status) f ∙ ap status_of c.status_lem;
      lines = stored-lines (t'.items c.row.id) order.items o.items c.stored.lines c.lines;
    }

ok-IsCreated :
    (order : Order) (t t' : Tables) (r : Result (Order × Bool)) (o : Order)
    → Outcome order t t' r
    → r ≡ ok (o, true)
    → IsCreated order t t' o
ok-IsCreated order t t' r o (created o0 e c) h =
    let same : o0 ≡ o = cc in subst (λ x. IsCreated order t t' x) same c
ok-IsCreated order t t' r o (replayed o0 row e f st same) h = cc
ok-IsCreated order t t' r o (failed e0 e same) h = cc
ok-IsCreated order t t' r o (unknown e0 o0 e c) h = cc

-- An order that OrderRepo.Create reports as created has the owner, total, key and status of the order
-- to be stored and, where every price is below 10 ^ 17 cents in size, its lines in some order.
pub create-Agrees :
    (d : PgDriver) (pg : IsPostgres d) (order : Order) (s : d.State) (o : Order)
    → (create d order s).0 ≡ ok (o, true)
    → Agrees order o
create-Agrees d pg order s o h =
    created-Agrees order o (pg.committed s) _
      (ok-IsCreated order (pg.committed s) _ _ o (create-OutcomeAt d pg order s) h)
