-- ===== src/Repo/Lookups.antt =====
-- OrderRepo.GetByID behind Create: it finds what was created, or fails for another reason than
-- ErrOrderNotFound.
use checkout_saga.Common.{
  ◌≡◌, refl, sym, ap, ◌∙◌, subst, Bool, true, false, List, none, some, Bool-cases, inl, inr,
}
use checkout_saga.Common.Text.{Text}
use checkout_saga.GoError.{
  annotate-eq-ok, Error, prefixed, is_error, order_not_found, Result, ok, err, annotate,
}
use checkout_saga.Order.{Order}
use checkout_saga.Repo.{load_order_by_id, get_by_id, create, order_of_row}
use checkout_saga.Repo.Driver.{OrderRow, ItemRow, PgDriver}
use checkout_saga.Repo.Postgres.{find_id, IsPostgres, IsFoundById}
use checkout_saga.Repo.Loading.{IsStored, load_order_by_id-IsStored}
use checkout_saga.Repo.Idempotency.{IsStored-unique}
use checkout_saga.Repo.Keys.{AreUnique, find_id-find_key}
use checkout_saga.Repo.Outcomes.{create-OutcomeAt}
use checkout_saga.Repo.Replays.{Run, here, next, Run-Holds, Run-AreUnique, ok-Holds}
use checkout_saga.Repo.Absence.{not_found-prefixed, load_order_by_id-not_found}

stored-id : (row : OrderRow) (rows : List ItemRow) (o : Order) → IsStored row rows o → o.id ≡ row.id
unfolding order_of_row
stored-id row rows o h = ap (λ (x : Order). x.id) h.fields

module _ (d : PgDriver) (pg : IsPostgres d) where
  open d use {State}
  open pg use {committed}

  not_found-load :
      (id : Text) (s : State) (e : Error)
      → get_by_id d id s ≡ err e
      → is_error order_not_found e ≡ true
      → find_id id (committed s).orders ≡ none
  unfolding get_by_id
  not_found-load id s e h n = go (load_order_by_id (d.on_pool s) id) refl h
    where
      go :
          (m : Result Order)
          → load_order_by_id (d.on_pool s) id ≡ m
          → annotate "OrderRepo.GetByID: " m ≡ err e
          → find_id id (committed s).orders ≡ none
      go (ok o) l p = cc
      go (err e1) l p =
          let same : prefixed "OrderRepo.GetByID: " e1 ≡ e = cc in
          load_order_by_id-not_found (pg.pool_reads s) id e1 l (
            sym (not_found-prefixed "OrderRepo.GetByID: " e1)
            ∙ ap (is_error order_not_found) same
            ∙ n)

  get_by_id-IsStored :
      (id : Text) (s : State) (o : Order)
      → get_by_id d id s ≡ ok o
      → (row : OrderRow) × IsFoundById (committed s) id row
        × IsStored row ((committed s).items row.id) o
  unfolding get_by_id
  get_by_id-IsStored id s o h =
      load_order_by_id-IsStored (pg.pool_reads s) id o
        (annotate-eq-ok "OrderRepo.GetByID: " (load_order_by_id (d.on_pool s) id) h)

  -- From tables without a repeated key or order id, after a successful Create and whatever Create
  -- calls follow, GetByID with the returned order's id returns that order or fails with an error that
  -- is not ErrOrderNotFound.
  pub get_by_id-create :
      (order : Order) (s s2 : State) (o : Order) (b : Bool)
      → AreUnique (committed s).orders
      → (create d order s).0 ≡ ok (o, b)
      → Run d pg (create d order s).1 s2
      → ((o' : Order) → get_by_id d o.id s2 ≡ ok o' → o' ≡ o)
        × ((e : Error) → get_by_id d o.id s2 ≡ err e → is_error order_not_found e ≡ false)
  get_by_id-create order s s2 o b unique made run =
      let held =
        Run-Holds d pg order.idempotency_key o run
          (ok-Holds order (committed s) _ _ o b (create-OutcomeAt d pg order s) made) in
      let u = Run-AreUnique d pg run (Run-AreUnique d pg (next here order) unique) in
      let id : o.id ≡ held.row.id = stored-id held.row _ o held.stored in
      let found : find_id o.id (committed s2).orders ≡ some held.row =
        ap (λ k. find_id k (committed s2).orders) id
        ∙ find_id-find_key order.idempotency_key (committed s2).orders held.row u held.found in
      (
        λ o' h.
            let (row, found', stored) = get_by_id-IsStored o.id s2 o' h in
            let same : row ≡ held.row = sym (found'.same held.row found) in
            IsStored-unique held.row ((committed s2).items held.row.id) o' o
              (subst (λ r. IsStored r ((committed s2).items r.id) o') same stored) held.stored,
        λ e h. elim (Bool-cases (is_error order_not_found e)) [
          | inl n ↦ cc (found, not_found-load o.id s2 e h n)
          | inr n ↦ n
        ],
      )
