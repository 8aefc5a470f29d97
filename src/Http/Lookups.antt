-- ===== src/Http/Lookups.antt =====
-- GET /orders/{id} (order-handler.go) behind a stored order.
use checkout_saga.Common.{◌≡◌, ◌≢◌, refl, ap, ◌∙◌, Bool, false, Option, none, some, arith, String}
use checkout_saga.GoError.{Error, is_error, order_not_found, prefixed, Result, ok, err, annotate}
use checkout_saga.Order.{Order}
use checkout_saga.UseCase
use checkout_saga.Repo.{order_repo}
use checkout_saga.Repo
use checkout_saga.Repo.Driver.{PgDriver}
use checkout_saga.Repo.Postgres.{IsPostgres}
use checkout_saga.Repo.Absence.{not_found-prefixed}
use checkout_saga.Repo.Keys.{AreUnique}
use checkout_saga.Repo.Replays.{Run}
use checkout_saga.Repo.Lookups.{get_by_id-create}
use checkout_saga.Http.Wire.{
  Reply, Decoder, Validator, write_json, order_payload, new_order_response,
}
use checkout_saga.Http.Handlers.{write_use_case_error, reply_found, get_checked, get_by_id}

-- A reply that is not 404, and that shows this order where it is 200.
abbrev pub Finds : Order → Reply → Type 0
Finds o reply =
    (reply.status ≢ 404)
    × (reply.status ≡ 200 → reply ≡ write_json 200 (order_payload (new_order_response o)))

error-Finds :
    (o : Order) (e : Error) → is_error order_not_found e ≡ false → Finds o (write_use_case_error e)
unfolding write_use_case_error
error-Finds o e h = (λ k. ground arith, λ k. absurd (ground arith))

reply_found-Finds :
    (o : Order) (before : String) (found : Result Order)
    → ((o' : Order) → found ≡ ok o' → o' ≡ o)
    → ((e : Error) → found ≡ err e → is_error order_not_found e ≡ false)
    → Finds o (reply_found (annotate before found))
reply_found-Finds o before (err e) good bad =
    error-Finds o (prefixed before e) (not_found-prefixed before e ∙ bad e refl)
reply_found-Finds o before (ok o') good bad = (
  λ k. ground arith,
  λ k. ap (λ x. write_json 200 (order_payload (new_order_response x))) (good o' refl),
)

module _ (d : PgDriver) (pg : IsPostgres d) (json : Decoder) (v : Validator) where
  open d use {State}
  open pg use {committed}

  -- Behind a successful Create of the repository, from tables without a repeated key or order id,
  -- and whatever Create calls follow, GET /orders/{id} with the returned order's id is never
  -- answered with 404, and an answer 200 shows that order.
  pub get_by_id-Finds :
      (order : Order) (s s2 : State) (o : Order) (b : Bool)
      → AreUnique (committed s).orders
      → (Repo.create d order s).0 ≡ ok (o, b)
      → Run d pg (Repo.create d order s).1 s2
      → Finds o (get_by_id (order_repo d) json v o.id s2)
  unfolding get_by_id UseCase.get_by_id
  get_by_id-Finds order s s2 o b unique made run = go (v.id o.id)
    where
      go : (checked : Option Error) → Finds o (get_checked (order_repo d) json v checked o.id s2)
      go (some e) = (λ k. ground arith, λ k. absurd (ground arith))
      go none =
          let (good, bad) = get_by_id-create d pg order s s2 o b unique made run in
          reply_found-Finds o "OrderUseCase.GetByID: " (Repo.get_by_id d o.id s2) good bad
