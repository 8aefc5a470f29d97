-- ===== src/Repo/Memory/Laws.antt =====
-- The in-memory driver has the laws of `Repo.Postgres`.
pub mod Accepting
use mathlib.Core.List.{Perm}
use mathlib.Core.List.Perm
use checkout_saga.Common.{
  ◌⊎◌, inl, inr, Option, none, some, suc, ◌≡◌, ◌≢◌, refl, sym, ap, ◌∙◌, subst, true, false, List,
  [], ◌∷◌, ◌++◌, Option, none, some, map, All, length, length-append, arith, some-injective,
}
use checkout_saga.Common.Text.{Text, text_eq, text_eq_iff}
use checkout_saga.GoError.{
  no_rows, is_error, base, Error, ok-injective, Error, order_not_found, is_error, Result, ok, err,
}
use checkout_saga.Repo.Driver.{OrderRow, ItemRow, ItemArgs, Batch, Querier}
use checkout_saga.Repo.Postgres.{
  Tables, find_key, find_id, row_args, Reads, IsInserted, IsFilled, IsPostgres, stored_args,
  uuid_digits, IsFoundById,
}
use checkout_saga.Order.{Order}
use checkout_saga.Repo.{insert_row}
use checkout_saga.Repo.Keys.{AreUnique, find_id-id}
use checkout_saga.Repo.Progress.{IsUp}
use checkout_saga.Repo.Memory.{
  Memory, lines_of, order_ids, line_ids, new_id, tables, found_or_none, reader_of, reader, new_row,
  insert_if, new_line, new_lines, all_ok, fill_lines, memory, find_id-long, lines_of-long,
  map-ok-injective,
}

found_or_none-ok :
    (found : Option OrderRow) (row : OrderRow) → found_or_none found ≡ ok row → found ≡ some row
unfolding found_or_none
found_or_none-ok none row h = cc
found_or_none-ok (some r) row h = cc

found_or_none-err :
    (found : Option OrderRow) (e : Error)
    → found_or_none found ≡ err e
    → (found ≡ none) × (is_error order_not_found e ≡ false)
unfolding found_or_none is_error
found_or_none-err none e h = (refl, ground arith)
found_or_none-err (some r) e h = cc

scans_are_ok :
    (rows : List ItemRow)
    → All
        (λ (scan : Result ItemRow). (e : Error) → scan ≡ err e → is_error order_not_found e ≡ false)
        (map ok rows)
scans_are_ok [] = tt
scans_are_ok (row ∷ rows) = (λ e h. cc, scans_are_ok rows)

found_by_id :
    (id : Text) (row : OrderRow) (t : Tables)
    → find_id id t.orders ≡ some row
    → IsFoundById t id row
found_by_id id row t found =
    let same = find_id-id id t.orders row found in
    record {
      there = ap (λ x. find_id x t.orders) same ∙ found;
      spelled = ap uuid_digits same;
      same = λ r h. some-injective (sym h ∙ found);
    }

pub reader_of-Reads : (t : Tables) → Reads (reader_of t) t
unfolding reader_of
reader_of-Reads t = record {
  by_id_ok = λ id row h. found_by_id id row t (found_or_none-ok (find_id id t.orders) row h);
  by_id_none = λ id e h n. (found_or_none-err (find_id id t.orders) e h).0;
  by_key_ok = λ key row h. found_or_none-ok (find_key key t.orders) row h;
  items_ok = λ id rows l present h ended scans.
      let all : rows.scans ≡ map ok (t.items id) = ground arith in
      map-ok-injective (t.items id) l (sym all ∙ scans);
  by_id_foreign = λ id e h. (found_or_none-err (find_id id t.orders) e h).1;
  items_foreign = λ id e h. cc;
  scans_foreign = λ id rows h.
      let all : map ok (t.items id) ≡ rows.scans = ground arith in
      subst (λ l. All (λ scan. (e : Error) → scan ≡ err e → is_error order_not_found e ≡ false) l)
        all (scans_are_ok (t.items id));
  ended_foreign =
      λ id rows e h ended. let over : rows.ended ≡ none = ground arith in cc (over, ended);
}

reader-Reads : (m : Memory) → Reads (reader m) (tables m)
unfolding reader
reader-Reads m = reader_of-Reads (tables m)

insert_if-IsInserted :
    (u t st k id : Text) (m m' : Memory) (found : Option OrderRow)
    → find_key k m.orders ≡ found
    → insert_if found u t st k m ≡ (ok id, m')
    → IsInserted (tables m) u t st k id (tables m')
unfolding insert_if tables new_row new_id
insert_if-IsInserted u t st k id m m' (some row) f h = cc
insert_if-IsInserted u t st k id m m' none f h =
    let is_id : new_id m ≡ id = ground arith in
    let is_m : record m { orders = new_row (new_id m) u t st k ∷ m.orders } ≡ m' =
      ap (λ p. p.1) h in
    subst (λ x. IsInserted (tables m) u t st k id (tables x)) is_m
      (subst
        (λ x.
          IsInserted (tables m) u t st k x
            (tables (record m { orders = new_row (new_id m) u t st k ∷ m.orders })))
        is_id
        (record {
          row = new_row (new_id m) u t st k;
          added = refl;
          same_items = refl;
          new_key = f;
          new_id =
              find_id-long (new_id m) m.orders
                (omega (arith, length-append (order_ids m.orders) (line_ids m.lines)));
          no_items =
              lines_of-long (new_id m) m.lines
                (omega (arith, length-append (order_ids m.orders) (line_ids m.lines)));
          id_lem = refl;
          user_id_lem = refl;
          total_lem = refl;
          status_lem = refl;
          key_lem = refl;
          version_lem = refl;
        }))

insert_if-conflict :
    (u t st k : Text) (m m' : Memory) (e : Error) (found : Option OrderRow)
    → insert_if found u t st k m ≡ (err e, m')
    → tables m' ≡ tables m
unfolding insert_if
insert_if-conflict u t st k m m' e none h = cc
insert_if-conflict u t st k m m' e (some row) h = ap tables (sym (ap (λ p. p.1) h))

pub length-all_ok : (args : List ItemArgs) → length (all_ok args) ≡ length args
unfolding all_ok
length-all_ok [] = refl
length-all_ok (a ∷ args) = ap suc (length-all_ok args)

lines_of-new_others :
    (id j : Text) (args : List ItemArgs) (lines : List ItemRow)
    → j ≢ id
    → lines_of j (new_lines id args ++ lines) ≡ lines_of j lines
unfolding lines_of new_lines new_line
lines_of-new_others id j [] lines ne = refl
lines_of-new_others id j (a ∷ args) lines ne =
    let other : text_eq id j ≡ false = ground (arith, text_eq_iff id j) in
    rw other (lines_of-new_others id j args lines ne)

lines_of-new :
    (id : Text) (args : List ItemArgs) (lines : List ItemRow)
    → lines_of id lines ≡ []
    → map row_args (lines_of id (new_lines id args ++ lines)) ≡ map stored_args args
unfolding lines_of new_lines new_line row_args stored_args
lines_of-new id [] lines h = ap (map row_args) h
lines_of-new id (a ∷ args) lines h =
    let own : text_eq id id ≡ true = (text_eq_iff id id).1 refl in
    rw own (cc (lines_of-new id args lines h))

fill_lines-IsFilled :
    (id : Text) (args : List ItemArgs) (m m' : Memory) (b : Batch)
    → fill_lines id args m ≡ (b, m')
    → IsFilled (tables m) id args (tables m')
unfolding fill_lines tables
fill_lines-IsFilled id args m m' b h =
    subst (λ x. IsFilled (tables m) id args (tables x)) (ap (λ p. p.1) h)
      (record {
        same_orders = refl;
        others = λ j ne. lines_of-new_others id j args m.lines ne;
        lines = λ empty.
            subst (λ l. Perm l (map stored_args args)) (sym (lines_of-new id args m.lines empty))
              (Perm.refl (map stored_args args));
      })

abbrev pub no_rows_yet : memory.State
unfolding memory
no_rows_yet = record { orders = []; lines = [] }

-- The reads of the in-memory driver meet no error.
abbrev Answers : Querier → Tables → Type 0
Answers q t =
    (key : Text) (row : OrderRow)
    → find_key key t.orders ≡ some row
    → (q.order_by_key key ≡ ok row)
      × (q.items_of row.id ≡ ok (record { scans = map ok (t.items row.id); ended = none }))

reader-Answers : (m : Memory) → Answers (reader m) (tables m)
unfolding reader reader_of tables found_or_none
reader-Answers m key row found = (rw found refl, refl)

-- The in-memory driver has the laws, it starts with no row, and its reads meet no error.
pub memory_lem :
    (pg : IsPostgres memory) × (AreUnique (pg.committed no_rows_yet).orders)
    × ((tx : memory.Tx) → Answers (memory.in_tx tx) (pg.seen tx))
unfolding memory tables
memory_lem = (
  record {
    committed = tables;
    seen = tables;
    begin_sees = λ s tx h. ap tables (sym (ok-injective h));
    insert_ok = λ u t st k id tx tx' h.
        insert_if-IsInserted u t st k id tx tx' (find_key k tx.orders) refl h;
    insert_conflict =
        λ u t st k tx tx' e h n. insert_if-conflict u t st k tx tx' e (find_key k tx.orders) h;
    batch_length = λ id args tx. length-all_ok args;
    batch_ok = λ id args tx tx' b h oks closed. fill_lines-IsFilled id args tx tx' b h;
    tx_reads = reader-Reads;
    pool_reads = reader-Reads;
    commit_ok = λ tx s s' h. ap tables (sym (ap (λ p. p.1) h));
    commit_err = λ tx s s' e h. cc;
    rollback_keeps = λ tx s. refl;
  },
  tt,
  reader-Answers,
)

insert_if-answers :
    (found : Option OrderRow) (u t st k : Text) (m : Memory)
    → ((id : Text) × ((insert_if found u t st k m).0 ≡ ok id))
      ⊎ ((e : Error) × ((insert_if found u t st k m).0 ≡ err e) × (is_error no_rows e ≡ true))
unfolding insert_if is_error
insert_if-answers none u t st k m = inl (_, refl)
insert_if-answers (some row) u t st k m = inr (base no_rows, refl, refl)

pub memory-IsUp : (order : Order) (m : memory.State) → IsUp memory memory_lem.0 order m
unfolding memory insert_row
memory-IsUp order m = record {
  tx = m;
  begins = refl;
  inserts = insert_if-answers (find_key order.idempotency_key m.orders) _ _ _ _ m;
  reads = λ e after row h found. memory_lem.2 after order.idempotency_key row found;
  commits = λ e after h. refl;
}
