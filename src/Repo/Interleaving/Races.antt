-- ===== src/Repo/Interleaving/Races.antt =====
-- Calls of OrderRepo.Create that race for one idempotency key.
use checkout_saga.Common.{
  ◌≡◌, ◌≢◌, sym, ap, ◌∙◌, subst, ℕ, Bool, false, List, [], ◌∷◌, some, inl, inr, arith, ◌⊎◌,
}
use native.Mathlib.Decide.{ℕ_discrete}
use checkout_saga.GoError.{Result, ok}
use checkout_saga.Order.{Order}
use checkout_saga.Repo.Postgres.{Tables}
use checkout_saga.Repo.Idempotency.{Holds, Holds-unique}
use checkout_saga.Repo.Replays.{keeps-Holds, ok-Holds, replay_of_Holds}
use checkout_saga.Repo.Interleaving.{returned, settled, System, Reach}
use checkout_saga.Repo.Interleaving.Server.{PgServer, IsServer}
use checkout_saga.Repo.Interleaving.Serial.{Serial, call}
use checkout_saga.Repo.Interleaving.Invariant.{logged}
use checkout_saga.Repo.Interleaving.Safety.{IsQuiet, Reach-Serial}

logged-cons :
    (i k : ℕ) (r r' : Result (Order × Bool)) (log : List (ℕ × Result (Order × Bool)))
    → logged i ((k, r) ∷ log) ≡ some r'
    → ((k ≡ i) × (r ≡ r')) ⊎ ((k ≢ i) × (logged i log ≡ some r'))
unfolding logged
logged-cons i k r r' log h = elim (ℕ_discrete k i) [
  | yes here ↦ inl (here, grind arith)
  | no other ↦ inr (other, grind arith)
]

module _ (orders : ℕ → Order) (t0 : Tables) where
  -- What a settled call returned with success is the order of its key from then on.
  logged-Holds :
      (log : List (ℕ × Result (Order × Bool))) (t : Tables) (i : ℕ) (o : Order) (b : Bool)
      → Serial orders t0 log t
      → logged i log ≡ some (ok (o, b))
      → Holds t (orders i).idempotency_key o
  unfolding logged
  logged-Holds [] t i o b s h = cc
  logged-Holds ((k, r) ∷ log) t i o b (call {t = t1} _ _ s out) h =
      elim (logged-cons i k r (ok (o, b)) log h) [
        | inl (here, is) ↦
            subst (λ j. Holds t (orders j).idempotency_key o) here
              (ok-Holds (orders k) t1 t r o b out is)
        | inr (other, there) ↦
            keeps-Holds (orders k) t1 t r (orders i).idempotency_key o out
              (logged-Holds log t1 i o b s there)
      ]

  -- Of two settled calls for one key at most one reports that it created the order.
  logged-created :
      (log : List (ℕ × Result (Order × Bool))) (t : Tables) (i j : ℕ) (o o' : Order) (b b' : Bool)
      → Serial orders t0 log t
      → i ≢ j
      → (orders i).idempotency_key ≡ (orders j).idempotency_key
      → logged i log ≡ some (ok (o, b))
      → logged j log ≡ some (ok (o', b'))
      → (b ≡ false) ⊎ (b' ≡ false)
  unfolding logged
  logged-created [] t i j o o' b b' s ne same h h' = cc
  logged-created ((k, r) ∷ log) t i j o o' b b' (call {t = t1} _ _ s out) ne same h h' =
      elim (logged-cons i k r (ok (o, b)) log h) [
        | inl (here, is) ↦ elim (logged-cons j k r (ok (o', b')) log h') [
          | inl (here', is') ↦ absurd (ne (sym here ∙ here'))
          | inr (other', there') ↦
              inl
                (replay_of_Holds (orders k) t1 t r o' o b out
                  (subst (λ x. Holds t1 x o')
                    (sym same ∙ ap (λ m. (orders m).idempotency_key) (sym here))
                    (logged-Holds log t1 j o' b' s there'))
                  is).1
        ]
        | inr (other, there) ↦ elim (logged-cons j k r (ok (o', b')) log h') [
          | inl (here', is') ↦
              inr
                (replay_of_Holds (orders k) t1 t r o o' b' out
                  (subst (λ x. Holds t1 x o)
                    (same ∙ ap (λ m. (orders m).idempotency_key) (sym here'))
                    (logged-Holds log t1 i o b s there))
                  is').1
          | inr (other', there') ↦ logged-created log t1 i j o o' b b' s ne same there there'
        ]
      ]

module _ (srv : PgServer) (is : IsServer srv) (orders : ℕ → Order) (n : ℕ) where
  open is use {view}

  -- From a state of the server in which no transaction has written anything, however the
  -- statements of the calls interleave: two calls for one idempotency key that have both returned
  -- with success returned the same order, the tables hold it under the key, and at most one of the
  -- two reports that it created it.
  pub returned_agree :
      (server : srv.Server) (k : ℕ) (s : System srv) (i j : ℕ) (o o' : Order) (b b' : Bool)
      → IsQuiet srv is server
      → Reach srv orders n server k s
      → i ≢ j
      → (orders i).idempotency_key ≡ (orders j).idempotency_key
      → s.pc i ≡ returned (ok (o, b))
      → s.pc j ≡ returned (ok (o', b'))
      → (o ≡ o')
        × Holds (view s.server).tables (orders i).idempotency_key o
        × ((b ≡ false) ⊎ (b' ≡ false))
  returned_agree server k s i j o o' b b' quiet r ne same h h' =
      let (serial, once, settles) = Reach-Serial srv is orders n server k s quiet r in
      let at_i = settles i ∙ ap settled h in
      let at_j = settles j ∙ ap settled h' in
      let held = logged-Holds orders (view server).tables s.log _ i o b serial at_i in
      let held' = logged-Holds orders (view server).tables s.log _ j o' b' serial at_j in
      (
        Holds-unique _ (orders i).idempotency_key o o' held
            (subst (λ x. Holds (view s.server).tables x o') (sym same) held'),
        held,
        logged-created orders (view server).tables s.log _ i j o o' b b' serial ne same at_i at_j,
      )
