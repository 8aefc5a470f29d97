-- ===== src/Repo/Interleaving/Atomic.antt =====
-- Interleaved calls of OrderRepo.Create against the abstract store of `Repo.Ledger`: a map from keys to
-- entries on which each call is one atomic step.
use checkout_saga.Common.{refl, subst, ℕ, Bool, List, [], ◌∷◌, ◌++◌}
use checkout_saga.GoError.{Result}
use checkout_saga.Order.{Order}
use checkout_saga.Repo.Postgres.{Tables}
use checkout_saga.Repo.Ledger.{Ledger, Step, History, nothing, call, ledger, Outcome-Step}
use checkout_saga.Repo.Interleaving.{System, Reach}
use checkout_saga.Repo.Interleaving.Server.{PgServer, IsServer}
use checkout_saga.Repo.Interleaving.Serial.{Serial}
use checkout_saga.Repo.Interleaving.Safety.{IsQuiet, Reach-Serial}

History-snoc :
    (calls : List (Order × Result (Order × Bool))) (l l1 l2 : Ledger) (order : Order)
    (r : Result (Order × Bool))
    → History l calls l1
    → Step order l1 r l2
    → History l (calls ++ (order, r) ∷ []) l2
History-snoc [] l l1 l2 order r (nothing _ _ same) step =
    call order r l l2 l2 [] (subst (λ x. Step order x r l2) same step) (nothing l2 l2 refl)
History-snoc ((o, x) ∷ calls) l l1 l2 order r (call _ _ _ l' _ _ first rest) step =
    call o x l l' l2 (calls ++ (order, r) ∷ []) first
      (History-snoc calls l' l1 l2 order r rest step)

module _ (orders : ℕ → Order) where
  -- The calls of a log with their orders, the earliest first.
  abbrev pub settled_calls : List (ℕ × Result (Order × Bool)) → List (Order × Result (Order × Bool))
  settled_calls [] = []
  settled_calls ((i, r) ∷ log) = settled_calls log ++ (orders i, r) ∷ []

  Serial-History :
      (t0 t : Tables) (log : List (ℕ × Result (Order × Bool)))
      → Serial orders t0 log t
      → History (ledger t0) (settled_calls log) (ledger t)
  Serial-History t0 t [] Serial.nothing = nothing _ _ refl
  Serial-History t0 t ((i, r) ∷ log) (Serial.call {t = t1} _ _ s out) =
      History-snoc (settled_calls log) (ledger t0) (ledger t1) (ledger t) (orders i) r
        (Serial-History t0 t1 log s) (Outcome-Step (orders i) t1 t r out)

  -- From a state of the server in which no transaction has written anything, however the
  -- statements of the calls interleave, they do to the tables what the settled calls, one atomic
  -- step each, in the order in which they settled, do to a map from keys to entries: a success
  -- puts the order if its key is new, reports whether it was, and returns an order with the id of
  -- the key's entry; a failure leaves the map, or put the order under a new key.
  pub Reach-History :
      (srv : PgServer) (is : IsServer srv) (n : ℕ) (server : srv.Server) (k : ℕ) (s : System srv)
      → IsQuiet srv is server
      → Reach srv orders n server k s
      → History
          (ledger (is.view server).tables)
          (settled_calls s.log)
          (ledger (is.view s.server).tables)
  Reach-History srv is n server k s quiet r =
      Serial-History _ _ s.log (Reach-Serial srv is orders n server k s quiet r).0
