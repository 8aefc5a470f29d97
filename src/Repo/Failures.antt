-- ===== src/Repo/Failures.antt =====
-- Where OrderRepo.Create fails: before Commit, with nothing changed, or with the error of Commit.
use checkout_saga.Common.{
  String, ◌≡◌, refl, sym, ◌∙◌, subst, Bool, Bool-cases, inl, inr, ◌⊎◌, false, true,
}
use checkout_saga.Common.Text.{Text}
use checkout_saga.GoError.{
  Error, prefixed, is_error, no_rows, order_not_found, invalid_order, invalid_money, Result, ok,
  err, ◌>>=◌, annotate,
}
use checkout_saga.Order.{Order}
use checkout_saga.Repo.{
  insert_items, finish, commit_loaded, replay, reload, decide, insert_row, deferred, begun, create,
}
use checkout_saga.Repo.Driver.{PgDriver}
use checkout_saga.Repo.Postgres.{IsPostgres}

-- The error is none of those that writeUseCaseError looks for.
pub record IsForeign (e : Error) : Type 0 where
  pub not_found : is_error order_not_found e ≡ false
  pub not_order : is_error invalid_order e ≡ false
  pub not_money : is_error invalid_money e ≡ false

-- What pgx returns from Commit wraps no error of the domain.
abbrev pub CommitsForeign : PgDriver → Type 0
CommitsForeign d = (tx : d.Tx) (s : d.State) (e : Error) → (d.commit tx s).0 ≡ err e → IsForeign e

committed-err :
    (result : Order × Bool) (committed : Result (Unit {0})) (e : Error)
    → (annotate "OrderRepo.Create: commit: " committed >>= (λ _. ok result)) ≡ err e
    → (e0 : Error) × (committed ≡ err e0) × (e ≡ prefixed "OrderRepo.Create: commit: " e0)
committed-err result (ok u) e h = cc
committed-err result (err e0) e h = (e0, refl, cc)

module _ (d : PgDriver) (pg : IsPostgres d) (foreign_commits : CommitsForeign d) where
  open d use {State, Tx}
  open pg use {committed}

  -- A failure behind `s` leaves the tables, or has an error that is not the domain's.
  abbrev pub FailsAt : State → Result (Order × Bool) × State → Type 0
  FailsAt s (r, s') = (e : Error) → r ≡ err e → (committed s' ≡ committed s) ⊎ IsForeign e

  IsForeign-prefixed : (before : String) (e : Error) → IsForeign e → IsForeign (prefixed before e)
  unfolding is_error
  IsForeign-prefixed before e f = record {
    not_found = f.not_found;
    not_order = f.not_order;
    not_money = f.not_money;
  }

  finish-FailsAt : (result : Order × Bool) (tx : Tx) (s : State) → FailsAt s (finish d result tx s)
  unfolding finish
  finish-FailsAt result tx s e h =
      let (e0, failed, same) = committed-err result (d.commit tx s).0 e h in
      inr (subst IsForeign (sym same) (IsForeign-prefixed _ e0 (foreign_commits tx s e0 failed)))

  commit_loaded-FailsAt :
      (before : String) (b : Bool) (loaded : Result Order) (tx : Tx) (s : State)
      → FailsAt s (commit_loaded d before b loaded tx s)
  unfolding commit_loaded
  commit_loaded-FailsAt before b (err e0) tx s e h = inl refl
  commit_loaded-FailsAt before b (ok order) tx s e h = finish-FailsAt (order, b) tx s e h

  reload-FailsAt :
      (id : Text) (filled : Result (Unit {0})) (tx : Tx) (s : State)
      → FailsAt s (reload d id (filled, tx) s)
  unfolding reload
  reload-FailsAt id (err e0) tx s e h = inl refl
  reload-FailsAt id (ok tt) tx s e h = commit_loaded-FailsAt _ true _ tx s e h

  decide-FailsAt :
      (order : Order) (inserted : Result Text) (tx : Tx) (s : State)
      → FailsAt s (decide d order (inserted, tx) s)
  unfolding decide replay
  decide-FailsAt order (ok id) tx s =
      reload-FailsAt id (insert_items d tx id order.items).0 (insert_items d tx id order.items).1 s
  decide-FailsAt order (err e0) tx s = elim (Bool-cases (is_error no_rows e0)) [
    | inl conflict ↦ rw conflict (commit_loaded-FailsAt _ false _ tx s)
    | inr other ↦ rw other (λ e h. inl refl)
  ]

  begun-FailsAt :
      (order : Order) (begin : Result Tx) (s : State) → FailsAt s (begun d order begin s)
  unfolding begun deferred
  begun-FailsAt order (err e0) s e h = inl refl
  begun-FailsAt order (ok tx) s e h =
      elim (decide-FailsAt order (insert_row d order tx).0 (insert_row d order tx).1 s e h) [
        | inl same ↦ inl (pg.rollback_keeps tx _ ∙ same)
        | inr f ↦ inr f
      ]

  pub create-FailsAt : (order : Order) (s : State) → FailsAt s (create d order s)
  unfolding create
  create-FailsAt order s = begun-FailsAt order (d.begin s) s
