-- ===== src/Http/Races.antt =====
-- POST /orders requests that run at the same time: each is one call of OrderRepo.Create, and the
-- statements of the calls interleave in any order.
mod Tests
use checkout_saga.Common.{◌≡◌, ◌≢◌, ◌⊎◌, inl, inr, sym, ap, ◌∙◌, ℕ, Bool, false, none, some}
use checkout_saga.GoError.{Result, ok, annotate, annotate-eq-ok}
use checkout_saga.Order.{Order}
use checkout_saga.Jwt.{Manager}
use checkout_saga.Jwt.Golang.{TokenLibrary}
use checkout_saga.Repo.Interleaving.{returned, System, Reach}
use checkout_saga.Repo.Interleaving.Server.{PgServer, IsServer}
use checkout_saga.Repo.Interleaving.Safety.{IsQuiet}
use checkout_saga.Repo.Interleaving.Races.{returned_agree}
use checkout_saga.Http.Wire.{
  Request, Decoder, Validator, data_body, order_payload, new_order_response,
}
use checkout_saga.Http.Router.{Moment, create_order, route_of}
use checkout_saga.Http.Requests.{key_of}
use checkout_saga.Http.Retries.{IsSuccess, reply_created-success}
use checkout_saga.Http.Calls.{recorder, answer, order_of, serve-order_of}

-- A successful reply, and the result that it was made from.
answer-success :
    (r : Result (Order × Bool)) → IsSuccess (answer r) → (o : Order) × (b : Bool) × (r ≡ ok (o, b))
answer-success r h =
    let (o, b, made) = reply_created-success (annotate "OrderUseCase.Create: " r) h in
    (o, b, annotate-eq-ok "OrderUseCase.Create: " r made)

answer-body :
    (r r' : Result (Order × Bool)) (o o' : Order) (b b' : Bool)
    → r ≡ ok (o, b)
    → r' ≡ ok (o', b')
    → o ≡ o'
    → (answer r).body ≡ (answer r').body
answer-body r r' o o' b b' e e' same =
    ap (λ x. (answer x).body) e
    ∙ ap (λ x. data_body (order_payload (new_order_response x))) same
    ∙ ap (λ x. (answer x).body) (sym e')

answer-replayed :
    (r : Result (Order × Bool)) (o : Order) (b : Bool)
    → r ≡ ok (o, b)
    → b ≡ false
    → (answer r).status ≡ 200
answer-replayed r o b e old =
    ap (λ x. (answer x).status) e ∙ ap (λ c. (answer (ok (o, c))).status) old

module _ (lib : TokenLibrary) (m : Manager) (json : Decoder) (v : Validator) (srv : PgServer)
    (is : IsServer srv) (moments : ℕ → Moment) (requests : ℕ → Request) (orders : ℕ → Order) where
  -- A POST /orders that stores this order.
  pub record IsPost (i : ℕ) : Type 0 where
    pub route : route_of (requests i).method (requests i).path ≡ create_order
    pub order : order_of lib m json v (moments i) (requests i) ≡ some (orders i)

  IsPost-key : (i : ℕ) → IsPost i → (orders i).idempotency_key ≡ key_of (requests i)
  IsPost-key i p =
      (serve-order_of lib m json v recorder (moments i) (requests i) (orders i) none p.route
        p.order).0

  -- Of two POST /orders requests with one key whose calls of OrderRepo.Create run at the same
  -- time, from a state of the server in which no transaction has written anything, have returned,
  -- and make both answers a success: both replies have the same body, and at least one of the two
  -- has status 200.
  pub answers_agree :
      (n : ℕ) (server : srv.Server) (k : ℕ) (s : System srv) (i j : ℕ)
      (r r' : Result (Order × Bool))
      → IsQuiet srv is server
      → Reach srv orders n server k s
      → i ≢ j
      → IsPost i
      → IsPost j
      → key_of (requests i) ≡ key_of (requests j)
      → s.pc i ≡ returned r
      → s.pc j ≡ returned r'
      → IsSuccess (answer r)
      → IsSuccess (answer r')
      → ((answer r).body ≡ (answer r').body)
        × (((answer r).status ≡ 200) ⊎ ((answer r').status ≡ 200))
  answers_agree n server k s i j r r' quiet reach ne post post' same at at' h h' =
      let (o, b, made) = answer-success r h in
      let (o', b', made') = answer-success r' h' in
      let keys = IsPost-key i post ∙ same ∙ sym (IsPost-key j post') in
      let (one, held, old) =
        returned_agree srv is orders n server k s i j o o' b b' quiet reach ne keys
          (at ∙ ap returned made) (at' ∙ ap returned made') in
      (
        answer-body r r' o o' b b' made made' one,
        elim old [
          | inl x ↦ inl (answer-replayed r o b made x)
          | inr x ↦ inr (answer-replayed r' o' b' made' x)
        ],
      )
