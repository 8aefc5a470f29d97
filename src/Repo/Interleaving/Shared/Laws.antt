-- ===== src/Repo/Interleaving/Shared/Laws.antt =====
-- The server in memory has the laws of `Interleaving.Server`.
use mathlib.Core.List.{Perm}
use mathlib.Core.List.Perm
use checkout_saga.Common.{
  Bool, true, false, ltb, ℕ, ◌≡◌, ◌≢◌, refl, sym, ap, ◌∙◌, subst, List, [], ◌∷◌, Option, none, some,
  map, length, length-append, arith, ◌+◌, some-injective,
}
use checkout_saga.Common.Text.{Text}
use checkout_saga.GoError.{Result, Error, ok, err}
use checkout_saga.Repo.Driver.{OrderRow, ItemArgs}
use checkout_saga.Repo.Postgres.{find_key, row_args, Reads, stored_args}
use checkout_saga.Repo.Memory.{new_row, new_line, new_lines, order_ids, find_id-long}
use checkout_saga.Repo.Memory.Laws.{reader_of-Reads, length-all_ok}
use checkout_saga.Repo.Interleaving.Server.{Own, merged, writes, IsFresh, IsServer}
use checkout_saga.Repo.Interleaving.Shared.{
  Shared, begin_if, owns, shared_view, own_ids, fresh_id, holder, insert_into, fill, shared,
}
use checkout_saga.Repo.Interleaving.Shared.Holder.{own_ids-le, holder-none, holder-some}

insert_into-ok :
    (found : Option OrderRow) (other : Option Own) (i : ℕ) (u t st k id : Text) (s s' : Shared)
    → find_key k s.tables.orders ≡ found
    → holder i k (owns s.written) s.written ≡ other
    → insert_into found other i u t st k s ≡ some (ok id, s')
    → (row : OrderRow) × IsFresh (shared_view s) i u t st k id row
      × (shared_view s' ≡ writes (shared_view s) i (some (record { row = row; lines = [] })))
unfolding insert_into new_row fresh_id
insert_into-ok (some row) other i u t st k id s s' f h e = cc
insert_into-ok none (some w) i u t st k id s s' f h e = cc
insert_into-ok none none i u t st k id s s' f h e =
    let is_id : fresh_id s ≡ id = ground arith in
    let is_s : record s {
      written = (i, some (record { row = new_row (fresh_id s) u t st k; lines = [] })) ∷ s.written;
    }
        ≡ s' =
      ap (λ p. p.1) (some-injective e) in
    (
      new_row (fresh_id s) u t st k,
      record {
        new_key = f;
        new_id = find_id-long id s.tables.orders (omega (arith, sizes, ap length is_id));
        apart = λ j w ne held. (
          holder-none i j k (owns s.written) s.written w w h ne held held,
          λ same.
              omega (arith, sizes, ap length is_id, ap length same, own_ids-le s.written j w held),
        );
        id_lem = is_id;
        user_id_lem = refl;
        total_lem = refl;
        status_lem = refl;
        key_lem = refl;
        version_lem = refl;
      },
      ap shared_view (sym is_s),
    )
  where
    sizes :
        length (fresh_id s) ≡ 1 + length (order_ids s.tables.orders) + length (own_ids s.written)
    sizes = omega (arith, length-append (order_ids s.tables.orders) (own_ids s.written))

insert_into-err :
    (found : Option OrderRow) (other : Option Own) (i : ℕ) (u t st k : Text) (s s' : Shared)
    (e : Error)
    → find_key k s.tables.orders ≡ found
    → insert_into found other i u t st k s ≡ some (err e, s')
    → (shared_view s' ≡ shared_view s) × (find_key k s.tables.orders ≢ none)
unfolding insert_into
insert_into-err (some row) other i u t st k s s' e f h =
    (ap (λ p. shared_view p.1) (sym (some-injective h)), λ n. cc)
insert_into-err none (some w) i u t st k s s' e f h = cc
insert_into-err none none i u t st k s s' e f h = cc

insert_into-none :
    (found : Option OrderRow) (other : Option Own) (i : ℕ) (u t st k : Text) (s : Shared)
    → holder i k (owns s.written) s.written ≡ other
    → insert_into found other i u t st k s ≡ none
    → (j : ℕ) × (w : Own) × (i ≢ j) × (owns s.written j ≡ some w) × (w.row.idempotency_key ≡ k)
unfolding insert_into
insert_into-none (some row) other i u t st k s h e = cc
insert_into-none none (some w) i u t st k s h e =
    let (j, ne, held, same) = holder-some i k (owns s.written) s.written w h in
    (j, w, ne, held, same)
insert_into-none none none i u t st k s h e = cc

map-new_lines :
    (id : Text) (args : List ItemArgs) → map row_args (new_lines id args) ≡ map stored_args args
unfolding new_lines row_args new_line stored_args
map-new_lines id [] = refl
map-new_lines id (a ∷ args) = ap (λ l. stored_args a ∷ l) (map-new_lines id args)

fill-some :
    (o : Option Own) (w : Own) (i : ℕ) (id : Text) (args : List ItemArgs) (s : Shared)
    → o ≡ some w
    → shared_view (fill o i id args s)
      ≡ writes (shared_view s) i (some (record w { lines = new_lines id args }))
unfolding fill
fill-some none w i id args s h = cc
fill-some (some v) w i id args s h =
    ap (λ (x : Own). writes (shared_view s) i (some (record x { lines = new_lines id args })))
      (some-injective h)

begin_if-view :
    (i : ℕ) (s s' : Shared) (r : Result (Unit {0})) (full : Bool)
    → begin_if full i s ≡ some (r, s')
    → shared_view s' ≡ shared_view s
begin_if-view i s s' r true h = cc
begin_if-view i s s' r false h = ap (λ p. shared_view p.1) (sym (some-injective h))

-- The server in memory has the laws.
pub shared-IsServer : IsServer shared
unfolding shared
shared-IsServer = record {
  view = shared_view;
  begin_lem = λ i s s' r h. begin_if-view i s s' r (ltb s.spare (length s.connections)) h;
  insert_ok = λ i u t st k id s s' own h. insert_into-ok _ _ i u t st k id s s' refl refl h;
  insert_err = λ i u t st k s s' e h. (insert_into-err _ _ i u t st k s s' e refl h).0;
  insert_conflict = λ i u t st k s s' e h n. (insert_into-err _ _ i u t st k s s' e refl h).1;
  insert_waits = λ i u t st k s h. insert_into-none _ _ i u t st k s refl h;
  batch_length = λ i id args s. length-all_ok args;
  batch_lem = λ i args s s' b w own h. (
    new_lines w.row.id args,
    ap (λ p. shared_view p.1) (sym h) ∙ fill-some (owns s.written i) w i w.row.id args s own,
    λ oks closed empty.
        subst (λ l. Perm l (map stored_args args)) (sym (map-new_lines w.row.id args))
          (Perm.refl (map stored_args args)),
  );
  reads = λ i s. reader_of-Reads (merged s.tables (owns s.written i));
  commit_ok = λ i s s' h. ap (λ p. shared_view p.1) (sym h);
  commit_err = λ i s s' e h. cc;
  rollback_lem = λ i s. refl;
}

abbrev pub no_orders : shared.Server
unfolding shared
no_orders = record {
  tables = record { orders = []; items = λ id. [] };
  written = [];
  connections = [];
  spare = 1;
}

-- It starts without an open transaction.
pub no_orders_lem : (i : ℕ) → (shared-IsServer.view no_orders).own i ≡ none
unfolding shared shared-IsServer
no_orders_lem i = refl

-- A transaction that has written nothing reads what is committed.
pub in_tx-Reads :
    (i : ℕ) (s : shared.Server)
    → (shared-IsServer.view s).own i ≡ none
    → Reads (shared.in_tx i s) (shared-IsServer.view s).tables
in_tx-Reads i s h =
    subst (λ o. Reads (shared.in_tx i s) (merged (shared-IsServer.view s).tables o)) h
      (shared-IsServer.reads i s)
