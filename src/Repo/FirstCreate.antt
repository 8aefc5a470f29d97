-- ===== src/Repo/FirstCreate.antt =====
-- With a database that accepts, OrderRepo.Create stores an order of a new key and returns it.
pub mod Rows
use mathlib.Core.Bool.{Bool-set}
use mathlib.Core.List.{Perm, foldr}
use mathlib.Core.List.Perm
use checkout_saga.Common.{
  ◌^◌, ◌<◌, ◌≡◌, refl, sym, ap, ◌∙◌, subst, Bool, true, false, ◌&&◌, List, [], ◌∷◌, none, some, map,
  All, length, arith,
}
use checkout_saga.Common.Int.{ℤ}
use checkout_saga.Common.Text.{Text}
use checkout_saga.GoError.{Result, ok, err}
use checkout_saga.Money.{parse_money, money_string}
use checkout_saga.Money.RoundTrip.{magnitude, parse_money-money_string}
use checkout_saga.Order.{Order, OrderItem, status_text}
use checkout_saga.Repo.{
  scan_order, attach_items, check_rows, load_order_by_id, order_of_row, item_args, exec_results,
  insert_items, create, begun, deferred, decide, insert_row, reload, commit_loaded, finish,
}
use checkout_saga.Repo.Driver.{OrderRow, ItemRow, ItemArgs, Querier, PgDriver}
use checkout_saga.Repo.Postgres.{
  Tables, find_key, find_id, row_args, IsFilled, IsInserted, IsPostgres,
}
use checkout_saga.Repo.Loading.{IsLine, AreLines, IsStored}
use checkout_saga.Repo.Creating.{find_id-head, insert_items-IsFilled, length-map}
use checkout_saga.Repo.Contents.{IsReadable}
use checkout_saga.Repo.Progress.{read_items_lines}
use Rows.{all_parse, all_parse-items, all_parse-Perm, readable_rows}

exec_results-ok :
    (items : List OrderItem) (results : List (Result (Unit {0})))
    → All (λ (r : Result (Unit {0})). r ≡ ok tt) results
    → length results ≡ length items
    → exec_results items results ≡ ok tt
unfolding exec_results
exec_results-ok [] results h l = refl
exec_results-ok (i ∷ items) [] h l = absurd (omega (arith, l))
exec_results-ok (i ∷ items) (r ∷ results) (hr, h) l =
    rw hr (exec_results-ok items results h (omega (arith, l)))

load_order_by_id_stored :
    (q : Querier) (t : Tables) (id : Text) (row : OrderRow) (o : Order)
    → q.order_by_id id ≡ ok row
    → q.items_of row.id ≡ ok (record { scans = map ok (t.items row.id); ended = none })
    → IsStored row (t.items row.id) o
    → load_order_by_id q id ≡ ok o
unfolding load_order_by_id scan_order attach_items check_rows order_of_row
load_order_by_id_stored q t id row o found lines stored = rw found (
    rw stored.total (
      rw lines (
        rw (read_items_lines (t.items row.id) [] o.items stored.lines)
          (ap ok (sym stored.fields)))))

-- An order whose amounts ParseMoney reads back.
pub record IsStorable (order : Order) : Type 0 where
  pub total : magnitude order.total_amount < 10 ^ 17
  pub prices : All IsReadable order.items

module _ (d : PgDriver) (pg : IsPostgres d) where
  open d use {State, Tx}
  open pg use {committed, seen}

  -- The transaction behind the batch of the lines.
  abbrev pub filled_tx : Order → Text → Tx → Tx
  filled_tx order id after = (d.send_batch id (map item_args order.items) after).1

  -- The calls that Create makes for this order in this state meet no error: each one is asked for where
  -- the calls before it have led.
  pub record Accepts (order : Order) (s : State) : Type 0 where
    pub tx : Tx
    pub begins : d.begin s ≡ ok tx
    pub inserts :
        find_key order.idempotency_key (committed s).orders ≡ none
        → (id : Text) × ((insert_row d order tx).0 ≡ ok id)
    pub fills :
        (id : Text) (after : Tx)
        → insert_row d order tx ≡ (ok id, after)
        → All
            (λ (r : Result (Unit {0})). r ≡ ok tt)
            (d.send_batch id (map item_args order.items) after).0.results
          × ((d.send_batch id (map item_args order.items) after).0.closed ≡ ok tt)
    pub finds :
        (id : Text) (after : Tx) (row : OrderRow)
        → insert_row d order tx ≡ (ok id, after)
        → find_id id (seen (filled_tx order id after)).orders ≡ some row
        → (d.in_tx (filled_tx order id after)).order_by_id id ≡ ok row
    pub lists :
        (id : Text) (after : Tx)
        → insert_row d order tx ≡ (ok id, after)
        → (d.in_tx (filled_tx order id after)).items_of id
          ≡ ok
              (record { scans = map ok ((seen (filled_tx order id after)).items id); ended = none })
    pub commits :
        (id : Text) (after : Tx)
        → insert_row d order tx ≡ (ok id, after)
        → (d.commit (filled_tx order id after) s).0 ≡ ok tt

  module _ (order : Order) (s : State) (up : Accepts order s) (storable : IsStorable order) where
    insert_items-ok :
        (id : Text) (after : Tx)
        → insert_row d order up.tx ≡ (ok id, after)
        → (insert_items d after id order.items).0 ≡ ok tt
    unfolding insert_items
    insert_items-ok id after h =
        let (all_ok, closed) = up.fills id after h in
        let batch = (d.send_batch id (map item_args order.items) after).0 in
        rw
          (exec_results-ok order.items batch.results all_ok
            (pg.batch_length id (map item_args order.items) after ∙ length-map order.items))
          (rw closed refl)

    -- The order that is read back, from its row and its lines.
    stored_order :
        (id : Text) (t t1 t2 : Tables)
        → (ins : IsInserted t order.user_id
            (money_string order.total_amount)
            (status_text order.status)
            order.idempotency_key
            id
            t1)
        → IsFilled t1 id (map item_args order.items) t2
        → (o : Order) × (find_id id t2.orders ≡ some ins.row)
          × IsStored ins.row (t2.items ins.row.id) o
    unfolding order_of_row
    stored_order id t t1 t2 ins filled =
        let empty : t1.items id ≡ [] = ap (λ f. f id) ins.same_items ∙ ins.no_items in
        let all : all_parse (map row_args (t2.items id)) ≡ true =
          all_parse-Perm (filled.lines empty) ∙ all_parse-items order.items storable.prices in
        let (items, lines) =
          readable_rows (t2.items ins.row.id)
            (ap (λ x. all_parse (map row_args (t2.items x))) ins.id_lem ∙ all) in
        (
          record (order_of_row ins.row order.total_amount) { items = items },
          ap (find_id id) (filled.same_orders ∙ ins.added)
              ∙ find_id-head ins.row t.orders id ins.id_lem,
          record {
            total =
                ap parse_money ins.total_lem
                ∙ parse_money-money_string order.total_amount storable.total;
            fields = refl;
            lines = lines;
          },
        )

    inserted_reload :
        (id : Text) (after : Tx)
        → insert_row d order up.tx ≡ (ok id, after)
        → (o : Order) × ((reload d id (insert_items d after id order.items) s).0 ≡ ok (o, true))
    unfolding reload commit_loaded finish insert_row insert_items
    inserted_reload id after h =
        let filled = (insert_items d after id order.items).1 in
        let ran : insert_items d after id order.items ≡ (ok tt, filled) =
          λ i. (insert_items-ok id after h i, filled) in
        let ins =
          pg.insert_ok order.user_id (money_string order.total_amount) (status_text order.status)
            order.idempotency_key id up.tx after h in
        let (o, found, stored) =
          stored_order id (seen up.tx) (seen after) (seen filled) ins
            (insert_items-IsFilled d pg after filled id order.items ran) in
        let loaded : load_order_by_id (d.in_tx filled) id ≡ ok o =
          load_order_by_id_stored (d.in_tx filled) (seen filled) id ins.row o
            (up.finds id after ins.row h found)
            (subst
              (λ x.
                (d.in_tx filled).items_of x
                ≡ ok (record { scans = map ok ((seen filled).items x); ended = none }))
              (sym ins.id_lem) (up.lists id after h))
            stored in
        (
          o,
          subst (λ x. (reload d id x s).0 ≡ ok (o, true)) (sym ran)
              (rw loaded (rw (up.commits id after h) refl)),
        )

    -- In a state where the database accepts the calls for it, Create stores an order of a new key whose
    -- amounts are below 10 ^ 17 cents in size, returns it and reports it as created.
    pub create_succeeds :
        find_key order.idempotency_key (committed s).orders ≡ none
        → (o : Order) × ((create d order s).0 ≡ ok (o, true))
    unfolding create begun deferred decide
    create_succeeds fresh =
        let (id, h) = up.inserts fresh in
        let after = (insert_row d order up.tx).1 in
        let inserted : insert_row d order up.tx ≡ (ok id, after) = λ i. (h i, after) in
        let (o, done) = inserted_reload id after inserted in
        (o, rw up.begins (subst (λ x. (decide d order x s).0 ≡ ok (o, true)) (sym inserted) done))
