-- ===== src/Repo/Interleaving/Moves/Writing.antt =====
-- The statements of a call that write: Begin, the INSERT, the batch, and the deferred Rollback.
use mathlib.Core.List.{Perm}
use checkout_saga.Common.{
  ◌≡◌, refl, ◌∙◌, subst, ℕ, Bool, List, [], Option, All, none, some, map, inl, inr, Bool-cases,
  Option-cases,
}
use checkout_saga.Common.Text.{Text}
use checkout_saga.GoError.{
  prefixed, is_error, no_rows, Result, ok, err, ◌>>=◌, annotate, >>=-eq-ok, annotate-eq-ok,
}
use checkout_saga.Money.{money_string}
use checkout_saga.Order.{Order, status_text}
use checkout_saga.Repo.{item_args, exec_results}
use checkout_saga.Repo.Driver.{Batch, ItemRow}
use checkout_saga.Repo.Postgres.{find_key, row_args, stored_args}
use checkout_saga.Repo.Creating.{exec_results-All, length-map}
use checkout_saga.Repo.Interleaving.{
  idle, begun, inserted, filled, conflicted, closing, returned, after_begin, after_insert,
  batch_result, after_batch, after_begin_tx, after_insert_order, advance,
}
use checkout_saga.Repo.Interleaving.Server.{PgServer, Own, writes, IsServer}
use checkout_saga.Repo.Interleaving.Apart.{AreApart, AreApart-drop, AreApart-insert, AreApart-fill}
use checkout_saga.Repo.Interleaving.Local.{IsWritten, Local}
use checkout_saga.Repo.Interleaving.Invariant.{Moved}
use checkout_saga.Repo.Interleaving.Moves.{
  Moved-still, Moved-err, Moved-writes, Moved-writes_err, MovedTo,
}

module _ (srv : PgServer) (is : IsServer srv) (order : Order) (i : ℕ) where
  open srv use {Server}
  open is use {view}

  module _ (s : Server) (apart : AreApart (view s)) where
    pub begin-MovedTo :
        (view s).own i ≡ none → MovedTo srv is order i idle s (advance srv i order idle s)
    unfolding advance after_begin_tx after_begin
    begin-MovedTo h = go (srv.begin i s) refl
      where
        go :
            (o : Option (Result (Unit {0}) × Server))
            → srv.begin i s ≡ o
            → MovedTo srv is order i idle s (after_begin_tx srv o)
        go none e = tt
        go (some (ok u, s')) e =
            Moved-still order i (view s) apart _ idle begun (is.begin_lem i s s' (ok u) e) refl h
        go (some (err x, s')) e =
            Moved-err order i (view s) apart _ idle _ (prefixed "OrderRepo.Create: begin: " x)
              (is.begin_lem i s s' (err x) e) refl refl (h, tt)

    pub insert-MovedTo :
        (view s).own i ≡ none → MovedTo srv is order i begun s (advance srv i order begun s)
    unfolding advance after_insert_order after_insert
    insert-MovedTo h =
        go
          (srv.insert_order i order.user_id (money_string order.total_amount)
            (status_text order.status) order.idempotency_key s)
          refl
      where
        go :
            (o : Option (Result Text × Server))
            → srv.insert_order i order.user_id
                (money_string order.total_amount)
                (status_text order.status)
                order.idempotency_key
                s
              ≡ o
            → MovedTo srv is order i begun s (after_insert_order srv o)
        go none e = tt
        go (some (ok id, s')) e =
            let (row, fresh, wrote) = is.insert_ok i _ _ _ _ id s s' h e in
            Moved-writes order i (view s) apart _ begun (inserted id) _ wrote
              (AreApart-insert (view s) apart i _ _ _ _ id row fresh) refl
              (
                record { row = row; lines = [] },
                record {
                  own = refl;
                  user_id_lem = fresh.user_id_lem;
                  total_lem = fresh.total_lem;
                  status_lem = fresh.status_lem;
                  key_lem = fresh.key_lem;
                },
                fresh.id_lem,
                refl,
              )
        go (some (err x, s')) e = elim (Bool-cases (is_error no_rows x)) [
          | inl conflict ↦
              elim (Option-cases (find_key order.idempotency_key (view s).tables.orders)) [
                | inl absent ↦ absurd (is.insert_conflict i _ _ _ _ s s' x e conflict absent)
                | inr (row, there) ↦ rw conflict (
                    Moved-still order i (view s) apart _ begun conflicted
                      (is.insert_err i _ _ _ _ s s' x e) refl (row, h, there))
              ]
          | inr other ↦ rw other (
              Moved-err order i (view s) apart _ begun _
                (prefixed "OrderRepo.Create: insert order: " x) (is.insert_err i _ _ _ _ s s' x e)
                refl refl tt)
        ]

    batch-MovedTo_row :
        (w : Own)
        → IsWritten order ((view s).own i) w
        → w.lines ≡ []
        → MovedTo srv is order i (inserted w.row.id) s (advance srv i order (inserted w.row.id) s)
    unfolding advance after_batch batch_result
    batch-MovedTo_row w written empty = go (batch_result order sent.0) refl
      where
        sent : Batch × Server
        sent = srv.send_batch i w.row.id (map item_args order.items) s

        did :
            (lines : List ItemRow) × (view sent.1
              ≡ writes (view s) i (some (record w { lines = lines })))
            × (All (λ (r : Result (Unit {0})). r ≡ ok tt) sent.0.results
                → sent.0.closed ≡ ok tt
                → w.lines ≡ []
                → Perm (map row_args lines) (map stored_args (map item_args order.items)))
        did = is.batch_lem i (map item_args order.items) s sent.1 sent.0 w written.own refl

        full : Own
        full = record w { lines = did.0 }

        full-apart : AreApart (writes (view s) i (some full))
        full-apart = AreApart-fill (view s) apart i w did.0 written.own

        go :
            (r : Result (Unit {0}))
            → exec_results order.items sent.0.results
                >>= (λ _. annotate "insertItems: close batch: " sent.0.closed)
              ≡ r
            → Moved order i (view s) (view sent.1) (inserted w.row.id) (after_batch w.row.id r)
        go (err e) h =
            Moved-writes_err order i (view s) apart _ (inserted w.row.id) (some full)
              (prefixed "OrderRepo.Create: " e) did.1 full-apart refl
        go (ok u) h =
            let (_, executed, closed) = >>=-eq-ok (exec_results order.items sent.0.results) _ h in
            Moved-writes order i (view s) apart _ (inserted w.row.id) (filled w.row.id) (some full)
              did.1 full-apart refl
              (
                full,
                record {
                  own = refl;
                  user_id_lem = written.user_id_lem;
                  total_lem = written.total_lem;
                  status_lem = written.status_lem;
                  key_lem = written.key_lem;
                },
                refl,
                did.2
                    (exec_results-All order.items sent.0.results executed (
                      is.batch_length i w.row.id (map item_args order.items) s
                      ∙ length-map order.items))
                    (annotate-eq-ok "insertItems: close batch: " sent.0.closed closed) empty,
              )

    pub batch-MovedTo :
        (id : Text)
        → Local order (view s).tables ((view s).own i) (inserted id)
        → MovedTo srv is order i (inserted id) s (advance srv i order (inserted id) s)
    batch-MovedTo id (w, written, is_id, empty) =
        subst (λ x. MovedTo srv is order i (inserted x) s (advance srv i order (inserted x) s))
          is_id (batch-MovedTo_row w written empty)

    pub close-MovedTo :
        (r : Result (Order × Bool))
        → Local order (view s).tables ((view s).own i) (closing r)
        → MovedTo srv is order i (closing r) s (advance srv i order (closing r) s)
    unfolding advance
    close-MovedTo r h =
        Moved-writes order i (view s) apart _ (closing r) (returned r) none (is.rollback_lem i s)
          (AreApart-drop (view s) apart i) refl (refl, h)
