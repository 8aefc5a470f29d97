-- ===== src/Repo/Outcomes.antt =====
-- OrderRepo.Create has one of the four outcomes of `Repo.Creating`, whatever the driver answers.
use mathlib.Core.List.{Perm}
use checkout_saga.Common.{
  String, ◌≡◌, refl, sym, ap, ◌∙◌, subst, Bool, true, false, [], ◌∷◌, none, some, map, Bool-cases,
  inl, inr,
}
use checkout_saga.Common.Text.{Text}
use checkout_saga.GoError.{is_error, no_rows, Result, ok, err, prefixed}
use checkout_saga.Money.{money_string}
use checkout_saga.Order.{Order, status_text}
use checkout_saga.Repo.{
  item_args, insert_items, commit_loaded, replay, reload, decide, insert_row, deferred, begun,
  create, load_order_by_id, load_order_by_key,
}
use checkout_saga.Repo.Driver.{OrderRow, PgDriver}
use checkout_saga.Repo.Postgres.{
  find_key, find_id, row_args, IsInserted, IsFilled, IsPostgres, stored_args,
}
use checkout_saga.Repo.Loading.{IsStored, load_order_by_id-IsStored, load_order_by_key-IsStored}
use checkout_saga.Repo.Creating.{
  IsCreated, Outcome, created, replayed, failed, unknown, find_id-head, Finished, finish-Finished,
  insert_items-IsFilled,
}

module _ (d : PgDriver) (pg : IsPostgres d) where
  open d use {State, Tx}
  open pg use {committed, seen}

  abbrev pub OutcomeAt : Order → State → Result (Order × Bool) × State → Type 0
  OutcomeAt order s (r, s') = Outcome order (committed s) (committed s') r

  replay_end :
      (order o : Order) (row : OrderRow) (tx : Tx) (s : State) (r : Result (Order × Bool))
      (s' : State)
      → Finished d pg (o, false) tx s (r, s')
      → seen tx ≡ committed s
      → find_key order.idempotency_key (committed s).orders ≡ some row
      → IsStored row ((committed s).items row.id) o
      → OutcomeAt order s (r, s')
  replay_end order o row tx s r s' (inl (e, c)) same found stored =
      replayed o row e found stored (c ∙ same)
  replay_end order o row tx s r s' (inr (e, h, inl c)) same found stored = failed e h c
  replay_end order o row tx s r s' (inr (e, h, inr c)) same found stored = failed e h (c ∙ same)

  -- The duplicate path.
  replay-OutcomeAt :
      (order : Order) (before : String) (tx : Tx) (s : State) (loaded : Result Order)
      → seen tx ≡ committed s
      → load_order_by_key (d.in_tx tx) order.idempotency_key ≡ loaded
      → OutcomeAt order s (commit_loaded d before false loaded tx s)
  unfolding commit_loaded
  replay-OutcomeAt order before tx s (err e) same h = failed (prefixed before e) refl refl
  replay-OutcomeAt order before tx s (ok o) same h =
      let (row, found, stored) =
        load_order_by_key-IsStored (pg.tx_reads tx) order.idempotency_key o h in
      replay_end order o row tx s _ _ (finish-Finished d pg (o, false) tx s) same
        (subst (λ t. find_key order.idempotency_key t.orders ≡ some row) same found)
        (subst (λ t. IsStored row (t.items row.id) o) same stored)

  create_end :
      (order o : Order) (tx : Tx) (s : State) (r : Result (Order × Bool)) (s' : State)
      → Finished d pg (o, true) tx s (r, s')
      → IsCreated order (committed s) (seen tx) o
      → OutcomeAt order s (r, s')
  create_end order o tx s r s' (inl (e, c)) made =
      created o e (subst (λ t. IsCreated order (committed s) t o) (sym c) made)
  create_end order o tx s r s' (inr (e, h, inl c)) made = failed e h c
  create_end order o tx s r s' (inr (e, h, inr c)) made =
      unknown e o h (subst (λ t. IsCreated order (committed s) t o) (sym c) made)

  -- The row and the lines of a new order, from what the two INSERTs did.
  inserted-IsCreated :
      (order o : Order) (id : Text) (tx tx1 tx2 : Tx) (s : State)
      → seen tx ≡ committed s
      → IsInserted
          (seen tx)
          order.user_id
          (money_string order.total_amount)
          (status_text order.status)
          order.idempotency_key
          id
          (seen tx1)
      → IsFilled (seen tx1) id (map item_args order.items) (seen tx2)
      → load_order_by_id (d.in_tx tx2) id ≡ ok o
      → IsCreated order (committed s) (seen tx2) o
  inserted-IsCreated order o id tx tx1 tx2 s same ins filled h =
      let (row, found, stored) = load_order_by_id-IsStored (pg.tx_reads tx2) id o h in
      let orders : (seen tx2).orders ≡ ins.row ∷ (seen tx).orders =
        filled.same_orders ∙ ins.added in
      let own : ins.row ≡ row =
        found.same ins.row
          (ap (find_id id) orders ∙ find_id-head ins.row (seen tx).orders id ins.id_lem) in
      let empty : (seen tx1).items id ≡ [] = ap (λ f. f id) ins.same_items ∙ ins.no_items in
      record {
        row = ins.row;
        added = orders ∙ ap (λ t. ins.row ∷ t.orders) same;
        others = λ j ne.
            filled.others j (λ e. ne (e ∙ sym ins.id_lem))
            ∙ ap (λ f. f j) ins.same_items
            ∙ ap (λ t. t.items j) same;
        new_key = subst (λ t. find_key order.idempotency_key t.orders ≡ none) same ins.new_key;
        new_id =
            subst (λ t. find_id ins.row.id t.orders ≡ none) same
              (subst (λ k. find_id k (seen tx).orders ≡ none) (sym ins.id_lem) ins.new_id);
        user_id_lem = ins.user_id_lem;
        total_lem = ins.total_lem;
        status_lem = ins.status_lem;
        key_lem = ins.key_lem;
        lines =
            subst
              (λ k.
                Perm (map row_args ((seen tx2).items k))
                  (map stored_args (map item_args order.items)))
              (sym ins.id_lem) (filled.lines empty);
        stored = subst (λ w. IsStored w ((seen tx2).items w.id) o) (sym own) stored;
      }

  commit_loaded-OutcomeAt :
      (order : Order) (before : String) (id : Text) (tx : Tx) (s : State) (loaded : Result Order)
      → ((o : Order)
          → load_order_by_id (d.in_tx tx) id ≡ ok o
          → IsCreated order (committed s) (seen tx) o)
      → load_order_by_id (d.in_tx tx) id ≡ loaded
      → OutcomeAt order s (commit_loaded d before true loaded tx s)
  unfolding commit_loaded
  commit_loaded-OutcomeAt order before id tx s (err e) make h = failed (prefixed before e) refl refl
  commit_loaded-OutcomeAt order before id tx s (ok o) make h =
      create_end order o tx s _ _ (finish-Finished d pg (o, true) tx s) (make o h)

  -- Behind a successful INSERT of the order.
  reload-OutcomeAt :
      (order : Order) (id : Text) (tx tx1 : Tx) (s : State) (c : Result (Unit {0})) (tx2 : Tx)
      → seen tx ≡ committed s
      → IsInserted
          (seen tx)
          order.user_id
          (money_string order.total_amount)
          (status_text order.status)
          order.idempotency_key
          id
          (seen tx1)
      → insert_items d tx1 id order.items ≡ (c, tx2)
      → OutcomeAt order s (reload d id (c, tx2) s)
  unfolding reload
  reload-OutcomeAt order id tx tx1 s (err e) tx2 same ins h = failed _ refl refl
  reload-OutcomeAt order id tx tx1 s (ok tt) tx2 same ins h =
      commit_loaded-OutcomeAt order "OrderRepo.Create: reload: " id tx2 s _
        (λ o.
          inserted-IsCreated order o id tx tx1 tx2 s same ins
            (insert_items-IsFilled d pg tx1 tx2 id order.items h))
        refl

  decide-OutcomeAt :
      (order : Order) (tx : Tx) (s : State) (inserted : Result Text) (tx1 : Tx)
      → seen tx ≡ committed s
      → insert_row d order tx ≡ (inserted, tx1)
      → OutcomeAt order s (decide d order (inserted, tx1) s)
  unfolding decide insert_row replay
  decide-OutcomeAt order tx s (ok id) tx1 same h =
      let ins =
        pg.insert_ok order.user_id (money_string order.total_amount) (status_text order.status)
          order.idempotency_key id tx tx1 h in
      reload-OutcomeAt order id tx tx1 s _ _ same ins refl
  decide-OutcomeAt order tx s (err e) tx1 same h = elim (Bool-cases (is_error no_rows e)) [
    | inl duplicate ↦
        let kept =
          pg.insert_conflict order.user_id (money_string order.total_amount)
            (status_text order.status) order.idempotency_key tx tx1 e h duplicate in
        rw duplicate
          (replay-OutcomeAt order "OrderRepo.Create: load existing: " tx1 s _ (kept ∙ same) refl)
    | inr other ↦ rw other (failed _ refl refl)
  ]

  deferred-OutcomeAt :
      (order : Order) (tx : Tx) (s : State) (r : Result (Order × Bool)) (s' : State)
      → OutcomeAt order s (r, s')
      → OutcomeAt order s (deferred d tx (r, s'))
  unfolding deferred
  deferred-OutcomeAt order tx s r s' h =
      subst (λ t. Outcome order (committed s) t r) (sym (pg.rollback_keeps tx s')) h

  begun-OutcomeAt :
      (order : Order) (s : State) (begin : Result Tx)
      → d.begin s ≡ begin
      → OutcomeAt order s (begun d order begin s)
  unfolding begun
  begun-OutcomeAt order s (err e) h = failed _ refl refl
  begun-OutcomeAt order s (ok tx) h =
      deferred-OutcomeAt order tx s _ _
        (decide-OutcomeAt order tx s _ _ (pg.begin_sees s tx h) refl)

  -- Every call of OrderRepo.Create stored one new order and returned it, or returned the stored order
  -- of the key and changed nothing, or failed and changed nothing, or failed in Commit behind a new
  -- order, which may be stored.
  pub create-OutcomeAt : (order : Order) (s : State) → OutcomeAt order s (create d order s)
  unfolding create
  create-OutcomeAt order s = begun-OutcomeAt order s (d.begin s) refl
