-- ===== src/Repo/Progress.antt =====
-- With a database that answers, a retry of OrderRepo.Create succeeds.
use mathlib.Core.List.{append-nil, append_assoc}
use checkout_saga.Common.{
  ◌≡◌, ◌⊎◌, refl, sym, ap, ◌∙◌, subst, Bool, true, false, List, [], ◌∷◌, ◌++◌, none, some, map, inl,
  inr,
}
use checkout_saga.Common.Text.{Text}
use checkout_saga.GoError.{Error, is_error, no_rows, ok, err, ◌>>=◌}
use checkout_saga.Money.{money_string}
use checkout_saga.Order.{Order, OrderItem, status_text}
use checkout_saga.Repo.{
  scan_order, scan_item, read_items, check_rows, attach_items, load_order_by_key, order_of_row,
  create, begun, deferred, decide, insert_row, replay, commit_loaded, finish,
}
use checkout_saga.Repo.Driver.{OrderRow, ItemRow, Querier, PgDriver}
use checkout_saga.Repo.Postgres.{Tables, find_key, IsPostgres}
use checkout_saga.Repo.Loading.{IsLine, AreLines, IsStored}
use checkout_saga.Repo.Idempotency.{Holds}
use checkout_saga.Repo.Outcomes.{create-OutcomeAt}
use checkout_saga.Repo.Replays.{Run, Run-Holds, ok-Holds}

scan_item_line : (row : ItemRow) (i : OrderItem) → IsLine row i → scan_item (ok row) ≡ ok i
unfolding scan_item
scan_item_line row i h = rw (h.price) (
    ap ok (λ k. record {
      id = sym h.id k;
      order_id = sym h.order_id k;
      product_id = sym h.product_id k;
      quantity = sym h.quantity k;
      price = i.price;
    }))

pub read_items_lines :
    (rows : List ItemRow) (acc items : List OrderItem)
    → AreLines rows items
    → read_items acc (map ok rows) ≡ ok (acc ++ items)
unfolding read_items
read_items_lines [] acc [] h = ap ok (sym (append-nil acc))
read_items_lines [] acc (i ∷ items) h = absurd h
read_items_lines (row ∷ rows) acc [] h = absurd h
read_items_lines (row ∷ rows) acc (i ∷ items) (h, hs) =
    ap (λ m. m >>= (λ item. read_items (acc ++ item ∷ []) (map ok rows))) (scan_item_line row i h)
    ∙ read_items_lines rows (acc ++ i ∷ []) items hs
    ∙ ap ok (append_assoc acc (i ∷ []) items)

load_order_by_key_stored :
    (q : Querier) (t : Tables) (key : Text) (row : OrderRow) (o : Order)
    → q.order_by_key key ≡ ok row
    → q.items_of row.id ≡ ok (record { scans = map ok (t.items row.id); ended = none })
    → IsStored row (t.items row.id) o
    → load_order_by_key q key ≡ ok o
unfolding load_order_by_key scan_order attach_items check_rows order_of_row
load_order_by_key_stored q t key row o found lines stored = rw found (
    rw stored.total (
      rw lines (
        rw (read_items_lines (t.items row.id) [] o.items stored.lines)
          (ap ok (sym stored.fields)))))

module _ (d : PgDriver) (pg : IsPostgres d) where
  open d use {State, Tx}
  open pg use {committed, seen}

  -- The calls that Create makes in this state for an order whose key is stored meet no error: the INSERT
  -- returns an id or no row, and the others are asked for where it has returned no row.
  pub record IsUp (order : Order) (s : State) : Type 0 where
    pub tx : Tx
    pub begins : d.begin s ≡ ok tx
    pub inserts :
        ((id : Text) × ((insert_row d order tx).0 ≡ ok id))
        ⊎ ((e : Error) × ((insert_row d order tx).0 ≡ err e) × (is_error no_rows e ≡ true))
    pub reads :
        (e : Error) (after : Tx) (row : OrderRow)
        → insert_row d order tx ≡ (err e, after)
        → find_key order.idempotency_key (seen after).orders ≡ some row
        → ((d.in_tx after).order_by_key order.idempotency_key ≡ ok row)
          × ((d.in_tx after).items_of row.id
              ≡ ok (record { scans = map ok ((seen after).items row.id); ended = none }))
    pub commits :
        (e : Error) (after : Tx)
        → insert_row d order tx ≡ (err e, after)
        → (d.commit after s).0 ≡ ok tt

  -- The INSERT of a key that is stored returns no row.
  conflicts :
      (order : Order) (s : State) (up : IsUp order s) (row : OrderRow)
      → find_key order.idempotency_key (committed s).orders ≡ some row
      → (e : Error) × ((insert_row d order up.tx).0 ≡ err e) × (is_error no_rows e ≡ true)
  unfolding insert_row
  conflicts order s up row found = elim up.inserts [
    | inl (id, h) ↦
        let after = (insert_row d order up.tx).1 in
        let ins =
          pg.insert_ok order.user_id (money_string order.total_amount) (status_text order.status)
            order.idempotency_key id up.tx after (λ i. (h i, after)) in
        cc (
          ins.new_key,
          found,
          ap (λ t. find_key order.idempotency_key t.orders) (pg.begin_sees s up.tx up.begins),
        )
    | inr r ↦ r
  ]

  decide_replays :
      (order o : Order) (s : State) (up : IsUp order s)
      → Holds (committed s) order.idempotency_key o
      → (decide d order (insert_row d order up.tx) s).0 ≡ ok (o, false)
  unfolding decide replay commit_loaded finish insert_row
  decide_replays order o s up held =
      let (e, conflict, none_back) = conflicts order s up held.row held.found in
      let after = (insert_row d order up.tx).1 in
      let failed : insert_row d order up.tx ≡ (err e, after) = λ i. (conflict i, after) in
      let kept =
        pg.insert_conflict order.user_id (money_string order.total_amount)
          (status_text order.status) order.idempotency_key up.tx after e failed none_back in
      let same : committed s ≡ seen after = sym (kept ∙ pg.begin_sees s up.tx up.begins) in
      let found =
        subst (λ t. find_key order.idempotency_key t.orders ≡ some held.row) same held.found in
      let (by_key, lines) = up.reads e after held.row failed found in
      let loaded =
        load_order_by_key_stored (d.in_tx after) (seen after) order.idempotency_key held.row o
          by_key lines (subst (λ t. IsStored held.row (t.items held.row.id) o) same held.stored) in
      subst (λ x. (decide d order x s).0 ≡ ok (o, false)) (sym failed)
        (rw none_back (rw loaded (rw (up.commits e after failed) refl)))

  -- Once Create has returned an order for a key, then, after any sequence of calls, Create with
  -- that key in a state where the calls that it makes for its order meet no error, but for the
  -- INSERT's conflict, returns the first order and reports it as not created.
  pub create_replays :
      (order later : Order) (s s2 : State) (o : Order) (b : Bool)
      → (create d order s).0 ≡ ok (o, b)
      → Run d pg (create d order s).1 s2
      → later.idempotency_key ≡ order.idempotency_key
      → IsUp later s2
      → (create d later s2).0 ≡ ok (o, false)
  unfolding create begun deferred
  create_replays order later s s2 o b first run same up =
      let held =
        Run-Holds d pg order.idempotency_key o run
          (ok-Holds order (committed s) _ _ o b (create-OutcomeAt d pg order s) first) in
      rw up.begins
        (decide_replays later o s2 up (subst (λ k. Holds (committed s2) k o) (sym same) held))
