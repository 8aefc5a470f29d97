-- ===== src/Repo/Interleaving/Balance.antt =====
-- Orders of NewOrder (internal/order/entity/order.go) that calls of OrderRepo.Create store at the same
-- time: what a reader finds adds up.
use mathlib.Core.List.{Perm, foldr}
use mathlib.Core.List.Perm
use checkout_saga.Common.{
  ◌≡◌, ◌≢◌, refl, sym, ap, ◌∙◌, subst, ℕ, ◌+◌, ◌*◌, List, [], ◌∷◌, none, map, All, arith, inl, inr,
  ◌⊎◌,
}
use checkout_saga.Common.Int.{pos, ◌≤ℤ◌, wrap64, pos_part}
use checkout_saga.Common.Text.{Text}
use checkout_saga.GoError.{ok}
use checkout_saga.Order.{Order, OrderItem, pending, status_of, status_text, new_order}
use checkout_saga.Order.Guards.{new_order-IsPlaced}
use checkout_saga.Order.States.{status_of-status_text}
use checkout_saga.Order.Total.{exact_total, new_order_total}
use checkout_saga.Repo.{item_args, load_order_by_id, order_of_row}
use checkout_saga.Repo.Driver.{OrderRow, Querier}
use checkout_saga.Repo.Postgres.{Tables, find_id, row_args, Reads, stored_args}
use checkout_saga.Repo.Loading.{IsStored}
use checkout_saga.Repo.Contents.{Line, line, IsReadable, stored-total, stored-lines}
use checkout_saga.Repo.Interleaving.{System, Reach}
use checkout_saga.Repo.Interleaving.Server.{PgServer, IsServer}
use checkout_saga.Repo.Interleaving.Safety.{IsQuiet}
use checkout_saga.Repo.Interleaving.Readers.{IsWhole, first, by_call, load_order_by_id-Origin}

add_line : Line → ℕ → ℕ
add_line l n = pos_part l.price * pos_part l.quantity + n

add_line_comm : (a b : Line) (n : ℕ) → add_line a (add_line b n) ≡ add_line b (add_line a n)
unfolding add_line
add_line_comm a b n = omega arith

exact_total-foldr : (items : List OrderItem) → exact_total items ≡ foldr add_line 0 (map line items)
unfolding add_line
exact_total-foldr [] = refl
exact_total-foldr (i ∷ items) =
    ap (λ n. pos_part i.price * pos_part i.quantity + n) (exact_total-foldr items)

-- The sum does not depend on the order of the lines.
exact_total-Perm :
    (items items' : List OrderItem)
    → Perm (map line items) (map line items')
    → exact_total items ≡ exact_total items'
exact_total-Perm items items' p =
    exact_total-foldr items
    ∙ Perm.foldr-eq (hlevel) add_line add_line_comm p 0
    ∙ sym (exact_total-foldr items')

-- An order that NewOrder built, with prices below 10 ^ 17 cents.
pub record IsNew (order : Order) : Type 0 where
  pub user_id : Text
  pub key : Text
  pub items : List OrderItem
  pub built : new_order user_id key items ≡ ok order
  pub readable : All IsReadable items

-- A PENDING order with a positive total, which is the exact sum of its own lines as an int64.
pub record IsBalanced (o : Order) : Type 0 where
  pub total : o.total_amount ≡ wrap64 (pos (exact_total o.items))
  pub positive : pos 1 ≤ℤ o.total_amount
  pub status : o.status ≡ pending

stored-IsBalanced :
    (order o : Order) (t : Tables) (row : OrderRow)
    → IsNew order
    → IsWhole order t row
    → IsStored row (t.items row.id) o
    → IsBalanced o
unfolding order_of_row
stored-IsBalanced order o t row new w stored =
    let p = new_order-IsPlaced new.user_id new.key new.items order new.built in
    let amount =
      stored-total row.total_text order.total_amount o.total_amount w.total_lem stored.total in
    let same_items : order.items ≡ new.items = ap (λ (x : Order). x.items) p.built in
    let lines =
      stored-lines (t.items row.id) new.items o.items stored.lines
        (subst (λ l. Perm (map row_args (t.items row.id)) (map stored_args (map item_args l)))
          same_items w.lines)
        new.readable in
    record {
      total =
          amount
          ∙ (new_order_total new.user_id new.key new.items order new.built).0
          ∙ ap (λ n. wrap64 (pos n)) (sym (exact_total-Perm o.items new.items lines));
      positive =
          subst (λ z. pos 1 ≤ℤ z) (sym (amount ∙ ap (λ (x : Order). x.total_amount) p.built))
            p.positive;
      status =
          ap (λ (x : Order). x.status) stored.fields
          ∙ ap status_of w.status_lem
          ∙ ap (λ (x : Order). status_of (status_text x.status)) p.built
          ∙ status_of-status_text.0;
    }

-- Where every call stores an order that NewOrder built, with prices below 10^17 cents, from a
-- state of the server in which no transaction has written anything and however the statements
-- interleave: an order that a reader of the committed tables finds has an id that was there at
-- first, or it is PENDING and has a positive total, which is the exact sum of its own lines as an
-- int64.
pub load_order_by_id-IsBalanced :
    (srv : PgServer) (is : IsServer srv) (orders : ℕ → Order) (n : ℕ) (server : srv.Server) (k : ℕ)
    (s : System srv) (q : Querier) (id : Text) (o : Order)
    → ((i : ℕ) → IsNew (orders i))
    → IsQuiet srv is server
    → Reach srv orders n server k s
    → Reads q (is.view s.server).tables
    → load_order_by_id q id ≡ ok o
    → (find_id o.id (is.view server).tables.orders ≢ none) ⊎ IsBalanced o
unfolding order_of_row
load_order_by_id-IsBalanced srv is orders n server k s q id o new quiet r reads h =
    let (row, stored, origin) =
      load_order_by_id-Origin srv is orders n server k s q id o quiet r reads h in
    elim origin [
      | first there _ ↦ inl (λ e. cc (ap (λ (x : Order). x.id) stored.fields))
      | by_call i w ↦
          inr (stored-IsBalanced (orders i) o (is.view s.server).tables row (new i) w stored)
    ]
