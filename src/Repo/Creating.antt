-- ===== src/Repo/Creating.antt =====
-- What one call of OrderRepo.Create does to the tables, on every path.
use mathlib.Core.List.{Perm}
use checkout_saga.Common.{
  suc, ◌≡◌, ◌≢◌, ◌⊎◌, refl, ap, ◌∙◌, subst, Bool, true, false, List, [], ◌∷◌, none, some, map, All,
  length, arith, inl, inr,
}
use checkout_saga.Common.Text.{Text, text_eq_iff}
use checkout_saga.GoError.{
  annotate-eq-ok, Error, Result, ok, err, ◌>>=◌, >>=-eq-ok, annotate, prefixed,
}
use checkout_saga.Money.{money_string}
use checkout_saga.Order.{Order, OrderItem, status_text}
use checkout_saga.Repo.{item_args, exec_results, insert_items, finish}
use checkout_saga.Repo.Driver.{OrderRow, PgDriver}
use checkout_saga.Repo.Postgres.{
  Tables, find_key, find_id, row_args, IsFilled, IsPostgres, stored_args, SameUuid,
}
use checkout_saga.Repo.Loading.{IsStored}

-- One new row under a new key and a new id, with the order's columns, and its lines in some order;
-- `o` is what reading it back gives.
pub record IsCreated (order : Order) (t t' : Tables) (o : Order) : Type 0 where
  pub row : OrderRow
  pub added : t'.orders ≡ row ∷ t.orders
  pub others : (j : Text) → j ≢ row.id → t'.items j ≡ t.items j
  pub new_key : find_key order.idempotency_key t.orders ≡ none
  pub new_id : find_id row.id t.orders ≡ none
  pub user_id_lem : SameUuid row.user_id order.user_id
  pub total_lem : row.total_text ≡ money_string order.total_amount
  pub status_lem : row.status ≡ status_text order.status
  pub key_lem : row.idempotency_key ≡ order.idempotency_key
  pub lines : Perm (map row_args (t'.items row.id)) (map stored_args (map item_args order.items))
  pub stored : IsStored row (t'.items row.id) o

pub data Outcome (order : Order) (t t' : Tables) (r : Result (Order × Bool)) : Type 0 where
  created : (o : Order) → r ≡ ok (o, true) → IsCreated order t t' o → Outcome order t t' r
  replayed :
      (o : Order) (row : OrderRow)
      → r ≡ ok (o, false)
      → find_key order.idempotency_key t.orders ≡ some row
      → IsStored row (t.items row.id) o
      → t' ≡ t
      → Outcome order t t' r
  failed : (e : Error) → r ≡ err e → t' ≡ t → Outcome order t t' r
  -- Commit failed behind a new order: the order may be stored nevertheless.
  unknown : (e : Error) (o : Order) → r ≡ err e → IsCreated order t t' o → Outcome order t t' r

pub exec_results-All :
    (items : List OrderItem) (results : List (Result (Unit {0})))
    → exec_results items results ≡ ok tt
    → length results ≡ length items
    → All (λ (r : Result (Unit {0})). r ≡ ok tt) results
unfolding exec_results
exec_results-All [] [] h l = tt
exec_results-All [] (r ∷ results) h l = absurd (omega arith)
exec_results-All (item ∷ items) [] h l = absurd (omega arith)
exec_results-All (item ∷ items) (err e ∷ results) h l = cc
exec_results-All (item ∷ items) (ok _ ∷ results) h l =
    (refl, exec_results-All items results h (omega arith))

pub length-map : (items : List OrderItem) → length (map item_args items) ≡ length items
length-map [] = refl
length-map (i ∷ items) = ap suc (length-map items)

pub find_id-head :
    (row : OrderRow) (rows : List OrderRow) (id : Text)
    → row.id ≡ id
    → find_id id (row ∷ rows) ≡ some row
unfolding find_id
find_id-head row rows id h = ground (arith, (text_eq_iff row.id id).1 h)

module _ (d : PgDriver) (pg : IsPostgres d) where
  open d use {State, Tx}
  open pg use {committed, seen}

  -- What `finish` leaves: the transaction is committed, or Commit failed.
  abbrev pub Finished : Order × Bool → Tx → State → Result (Order × Bool) × State → Type 0
  Finished result tx s (r, s') =
      ((r ≡ ok result) × (committed s' ≡ seen tx))
      ⊎ ((e : Error) × (r ≡ err e) × ((committed s' ≡ committed s) ⊎ (committed s' ≡ seen tx)))

  pub finish-Finished :
      (result : Order × Bool) (tx : Tx) (s : State) → Finished result tx s (finish d result tx s)
  unfolding finish
  finish-Finished result tx s = go (d.commit tx s).0 (d.commit tx s).1 refl
    where
      go :
          (c : Result (Unit {0})) (s' : State)
          → d.commit tx s ≡ (c, s')
          → Finished result tx s (annotate "OrderRepo.Create: commit: " c >>= (λ _. ok result), s')
      go (ok tt) s' e = inl (refl, pg.commit_ok tx s s' e)
      go (err e) s' h =
          inr (prefixed "OrderRepo.Create: commit: " e, refl, pg.commit_err tx s s' e h)

  pub insert_items-IsFilled :
      (tx tx' : Tx) (id : Text) (items : List OrderItem)
      → insert_items d tx id items ≡ (ok tt, tx')
      → IsFilled (seen tx) id (map item_args items) (seen tx')
  unfolding insert_items
  insert_items-IsFilled tx tx' id items h =
      let (batch, next) = d.send_batch id (map item_args items) tx in
      let (u, executed, closing) =
        >>=-eq-ok (exec_results items batch.results) _ (ap (λ p. p.0) h) in
      subst (λ x. IsFilled (seen tx) id (map item_args items) (seen x)) (ap (λ p. p.1) h)
        (pg.batch_ok id (map item_args items) tx next batch refl
          (exec_results-All items batch.results executed
            (pg.batch_length id (map item_args items) tx ∙ length-map items))
          (annotate-eq-ok "insertItems: close batch: " batch.closed closing))
