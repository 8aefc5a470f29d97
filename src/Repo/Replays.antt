-- ===== src/Repo/Replays.antt =====
-- Sequences of Create calls, failed ones included: a key names one order for ever, a retry returns it,
-- and no key is stored twice.
use checkout_saga.Common.{◌≡◌, ◌≢◌, sym, ap, ◌∙◌, subst, Bool, false, none}
use checkout_saga.Common.Text.{Text}
use checkout_saga.GoError.{Result, ok}
use checkout_saga.Order.{Order}
use checkout_saga.Repo.{create}
use checkout_saga.Repo.Driver.{PgDriver}
use checkout_saga.Repo.Postgres.{Tables, find_key, find_id, IsPostgres}
use checkout_saga.Repo.Loading.{IsStored}
use checkout_saga.Repo.Creating.{IsCreated, Outcome, created, replayed, failed, unknown}
use checkout_saga.Repo.Outcomes.{create-OutcomeAt}
use checkout_saga.Repo.Keys.{AreUnique, find_key-cons_self, find_key-cons, find_id_of_find_key}
use checkout_saga.Repo.Idempotency.{Holds, Holds-unique}

-- A new order leaves every other order of the tables as it was.
created-keeps-Holds :
    (order o0 : Order) (t t' : Tables) (key : Text) (o : Order)
    → IsCreated order t t' o0
    → Holds t key o
    → Holds t' key o
created-keeps-Holds order o0 t t' key o c h =
    let new : find_key c.row.idempotency_key t.orders ≡ none =
      subst (λ k. find_key k t.orders ≡ none) (sym c.key_lem) c.new_key in
    let other : h.row.id ≢ c.row.id = λ e.
      find_id_of_find_key key t.orders h.row h.found (ap (λ k. find_id k t.orders) e ∙ c.new_id) in
    record {
      row = h.row;
      found = ap (find_key key) c.added ∙ find_key-cons key c.row t.orders h.row new h.found;
      stored = subst (λ l. IsStored h.row l o) (sym (c.others h.row.id other)) h.stored;
    }

created-Holds :
    (order o : Order) (t t' : Tables) → IsCreated order t t' o → Holds t' order.idempotency_key o
created-Holds order o t t' c = record {
  row = c.row;
  found =
      ap (find_key order.idempotency_key) c.added
      ∙ find_key-cons_self order.idempotency_key c.row t.orders c.key_lem;
  stored = c.stored;
}

pub keeps-Holds :
    (order : Order) (t t' : Tables) (r : Result (Order × Bool)) (key : Text) (o : Order)
    → Outcome order t t' r
    → Holds t key o
    → Holds t' key o
keeps-Holds order t t' r key o (created o0 e c) h = created-keeps-Holds order o0 t t' key o c h
keeps-Holds order t t' r key o (replayed o0 row e f st same) h =
    subst (λ x. Holds x key o) (sym same) h
keeps-Holds order t t' r key o (failed e0 e same) h = subst (λ x. Holds x key o) (sym same) h
keeps-Holds order t t' r key o (unknown e0 o0 e c) h = created-keeps-Holds order o0 t t' key o c h

-- What a successful call returned is the order of its key.
pub ok-Holds :
    (order : Order) (t t' : Tables) (r : Result (Order × Bool)) (o : Order) (b : Bool)
    → Outcome order t t' r
    → r ≡ ok (o, b)
    → Holds t' order.idempotency_key o
ok-Holds order t t' r o b (created o0 e c) h =
    let same : o0 ≡ o = cc in
    subst (λ x. Holds t' order.idempotency_key x) same (created-Holds order o0 t t' c)
ok-Holds order t t' r o b (replayed o0 row e f st same) h =
    let eq : o0 ≡ o = cc in
    subst (λ x. Holds x order.idempotency_key o) (sym same)
      (record { row = row; found = f; stored = subst (λ x. IsStored row (t.items row.id) x) eq st })
ok-Holds order t t' r o b (failed e0 e same) h = cc
ok-Holds order t t' r o b (unknown e0 o0 e c) h = cc

-- A call for a key that is stored returns the stored order and changes nothing.
pub replay_of_Holds :
    (order : Order) (t t' : Tables) (r : Result (Order × Bool)) (o o' : Order) (b : Bool)
    → Outcome order t t' r
    → Holds t order.idempotency_key o
    → r ≡ ok (o', b)
    → (o' ≡ o) × (b ≡ false) × (t' ≡ t)
replay_of_Holds order t t' r o o' b (created o0 e c) held h = cc (held.found, c.new_key)
replay_of_Holds order t t' r o o' b (replayed o0 row e f st same) held h =
    let eq : o0 ≡ o' = cc in
    let stored : Holds t order.idempotency_key o0 = record { row = row; found = f; stored = st } in
    (sym eq ∙ Holds-unique t order.idempotency_key o0 o stored held, cc, same)
replay_of_Holds order t t' r o o' b (failed e0 e same) held h = cc
replay_of_Holds order t t' r o o' b (unknown e0 o0 e c) held h = cc

created-AreUnique :
    (order o : Order) (t t' : Tables)
    → IsCreated order t t' o
    → AreUnique t.orders
    → AreUnique t'.orders
created-AreUnique order o t t' c u =
    subst AreUnique (sym c.added)
      (subst (λ k. find_key k t.orders ≡ none) (sym c.key_lem) c.new_key, c.new_id, u)

pub AreUnique-step :
    (order : Order) (t t' : Tables) (r : Result (Order × Bool))
    → Outcome order t t' r
    → AreUnique t.orders
    → AreUnique t'.orders
AreUnique-step order t t' r (created o e c) u = created-AreUnique order o t t' c u
AreUnique-step order t t' r (replayed o row e f st same) u =
    subst (λ x. AreUnique x.orders) (sym same) u
AreUnique-step order t t' r (failed e0 e same) u = subst (λ x. AreUnique x.orders) (sym same) u
AreUnique-step order t t' r (unknown e0 o e c) u = created-AreUnique order o t t' c u

module _ (d : PgDriver) (pg : IsPostgres d) where
  open d use {State}
  open pg use {committed}

  -- States that any number of Create calls lead to, for any orders and with any result.
  pub data Run (s : State) : State → Type 0 where
    here : Run s s
    next : {t : State} → Run s t → (order : Order) → Run s (create d order t).1

  pub Run-Holds :
      {s s' : State} (key : Text) (o : Order)
      → Run s s'
      → Holds (committed s) key o
      → Holds (committed s') key o
  Run-Holds key o here h = h
  Run-Holds key o (next {t} run order) h =
      keeps-Holds order (committed t) (committed (create d order t).1) (create d order t).0 key o
        (create-OutcomeAt d pg order t) (Run-Holds key o run h)

  -- Once Create has returned an order for a key, any later successful Create with that key, after
  -- any sequence of calls and for whatever order, returns the same order, reports it as not
  -- created, and leaves the tables unchanged.
  pub create_idempotent :
      (order later : Order) (s s2 : State) (o o' : Order) (b b' : Bool)
      → (create d order s).0 ≡ ok (o, b)
      → Run (create d order s).1 s2
      → later.idempotency_key ≡ order.idempotency_key
      → (create d later s2).0 ≡ ok (o', b')
      → (o' ≡ o) × (b' ≡ false) × (committed (create d later s2).1 ≡ committed s2)
  create_idempotent order later s s2 o o' b b' first run same second =
      let held = ok-Holds order (committed s) _ _ o b (create-OutcomeAt d pg order s) first in
      replay_of_Holds later (committed s2) _ _ o o' b' (create-OutcomeAt d pg later s2)
        (subst (λ k. Holds (committed s2) k o) (sym same)
          (Run-Holds order.idempotency_key o run held))
        second

  -- From tables without a repeated key or order id, no sequence of Create calls, failed ones included,
  -- stores a key or an order id twice.
  pub Run-AreUnique :
      {s s' : State} → Run s s' → AreUnique (committed s).orders → AreUnique (committed s').orders
  Run-AreUnique here u = u
  Run-AreUnique (next {t} run order) u =
      AreUnique-step order (committed t) (committed (create d order t).1) (create d order t).0
        (create-OutcomeAt d pg order t) (Run-AreUnique run u)
