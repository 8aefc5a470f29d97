-- ===== src/Repo/Ledger.antt =====
-- OrderRepo.Create against an abstract store: a map from keys to entries, which forgets the order of
-- the rows, their times and their lines.
use checkout_saga.Common.{
  ◌≡◌, inl, inr, refl, sym, ap, ◌∙◌, subst, Bool, true, false, Bool-cases, List, [], ◌∷◌, Option,
  none, some, if◌then◌else◌,
}
use checkout_saga.Common.Text.{Text, text_eq, text_eq_iff}
use checkout_saga.GoError.{Error, Result, ok, err}
use checkout_saga.Money.{money_string}
use checkout_saga.Order.{Order, status_text}
use checkout_saga.Repo.{create, order_of_row}
use checkout_saga.Repo.Driver.{OrderRow, PgDriver}
use checkout_saga.Repo.Postgres.{Tables, find_key, IsPostgres, uuid_digits}
use checkout_saga.Repo.Loading.{IsStored}
use checkout_saga.Repo.Creating.{IsCreated, Outcome, created, replayed, failed, unknown}
use checkout_saga.Repo.Outcomes.{create-OutcomeAt}

-- The owner is kept by the digits of its UUID.
pub record Entry : Type 0 where
  pub id : Text
  pub user_id : Text
  pub total_text : Text
  pub status : Text

abbrev pub Ledger : Type 0
Ledger = Text → Option Entry

-- The entry of an order that gets this id.
abbrev pub entry : Order → Text → Entry
entry order id = record {
  id = id;
  user_id = uuid_digits order.user_id;
  total_text = money_string order.total_amount;
  status = status_text order.status;
}

abbrev pub put : Text → Entry → Ledger → Ledger
put key e l k = if text_eq key k then some e else l k

-- Put an order under its key if the key is new, and say whether it was.
abbrev pub put_if_absent : Order → Text → Ledger → Ledger × Bool
put_if_absent order id l = elim (l order.idempotency_key) [
  | some e ↦ (l, false)
  | none ↦ (put order.idempotency_key (entry order id) l, true)
]

-- What a call may do to the map: a success is `put_if_absent`, and the order that is returned has the
-- id of the key's entry; a failure leaves the map, or put an order under a new key all the same.
pub data Step (order : Order) (l : Ledger) : Result (Order × Bool) → Ledger → Type 0 where
  succeeded :
      (o : Order) (b : Bool) (l' : Ledger) (e : Entry)
      → (l', b) ≡ put_if_absent order o.id l
      → l' order.idempotency_key ≡ some e
      → e.id ≡ o.id
      → Step order l (ok (o, b)) l'
  rejected : (e : Error) (l' : Ledger) → l' ≡ l → Step order l (err e) l'
  uncertain :
      (e : Error) (id : Text) (l' : Ledger)
      → (l', true) ≡ put_if_absent order id l
      → Step order l (err e) l'

row_entry : OrderRow → Entry
row_entry row = record {
  id = row.id;
  user_id = uuid_digits row.user_id;
  total_text = row.total_text;
  status = row.status;
}

abbrev entry_of : Option OrderRow → Option Entry
entry_of none = none
entry_of (some row) = some (row_entry row)

-- The map that the tables stand for.
unfoldable pub ledger : Tables → Ledger
unfolding row_entry
ledger t key = entry_of (find_key key t.orders)

ledger-added :
    (t t' : Tables) (row : OrderRow)
    → t'.orders ≡ row ∷ t.orders
    → ledger t' ≡ put row.idempotency_key (row_entry row) (ledger t)
unfolding ledger find_key
ledger-added t t' row h i key = go key i
  where
    go : (key : Text) → ledger t' key ≡ put row.idempotency_key (row_entry row) (ledger t) key
    go key =
        ap (λ rows. entry_of (find_key key rows)) h
        ∙ elim (Bool-cases (text_eq row.idempotency_key key)) [
          | inl same ↦ rw same refl
          | inr other ↦ rw other refl
        ]

put_new :
    (order : Order) (id : Text) (l : Ledger)
    → l order.idempotency_key ≡ none
    → put_if_absent order id l ≡ (put order.idempotency_key (entry order id) l, true)
put_new order id l h = rw (put_if_absent, h) refl

put_old :
    (order : Order) (id : Text) (l : Ledger) (e : Entry)
    → l order.idempotency_key ≡ some e
    → put_if_absent order id l ≡ (l, false)
put_old order id l e h = rw (put_if_absent, h) refl

put-key : (key : Text) (e : Entry) (l : Ledger) → put key e l key ≡ some e
put-key key e l = rw ((text_eq_iff key key).1 refl) refl

module _ (order o : Order) (t t' : Tables) (c : IsCreated order t t' o) where
  created-ledger : ledger t' ≡ put order.idempotency_key (entry order c.row.id) (ledger t)
  unfolding row_entry
  created-ledger = ledger-added t t' c.row c.added ∙ (λ i.
      put (c.key_lem i)
        (record {
          id = c.row.id;
          user_id = c.user_id_lem i;
          total_text = c.total_lem i;
          status = c.status_lem i;
        })
        (ledger t))

  created-put : (ledger t', true) ≡ put_if_absent order c.row.id (ledger t)
  unfolding ledger
  created-put =
      ap (λ l. (l, true)) created-ledger
      ∙ sym (put_new order c.row.id (ledger t) (ap entry_of c.new_key))

  created-id : o.id ≡ c.row.id
  unfolding order_of_row
  created-id = ap (λ (x : Order). x.id) c.stored.fields

  created-Step : (b : Bool) → b ≡ true → Step order (ledger t) (ok (o, b)) (ledger t')
  created-Step b h =
      succeeded o b (ledger t') (entry order c.row.id)
        (ap (λ x. (ledger t', x)) h
          ∙ created-put
          ∙ ap (λ id. put_if_absent order id (ledger t)) (sym created-id))
        (ap (λ l. l order.idempotency_key) created-ledger
          ∙ put-key order.idempotency_key (entry order c.row.id) (ledger t))
        (sym created-id)

replayed-Step :
    (order o : Order) (t : Tables) (row : OrderRow)
    → find_key order.idempotency_key t.orders ≡ some row
    → IsStored row (t.items row.id) o
    → Step order (ledger t) (ok (o, false)) (ledger t)
unfolding ledger row_entry order_of_row
replayed-Step order o t row found stored =
    succeeded o false (ledger t) (row_entry row)
      (sym (put_old order o.id (ledger t) (row_entry row) (ap entry_of found))) (ap entry_of found)
      (sym (ap (λ (x : Order). x.id) stored.fields))

pub Outcome-Step :
    (order : Order) (t t' : Tables) (r : Result (Order × Bool))
    → Outcome order t t' r
    → Step order (ledger t) r (ledger t')
Outcome-Step order t t' r (created o h c) =
    subst (λ x. Step order (ledger t) x (ledger t')) (sym h) (created-Step order o t t' c true refl)
Outcome-Step order t t' r (replayed o row h found stored same) =
    subst (λ x. Step order (ledger t) x (ledger t')) (sym h)
      (subst (λ u. Step order (ledger t) (ok (o, false)) (ledger u)) (sym same)
        (replayed-Step order o t row found stored))
Outcome-Step order t t' r (failed e h same) =
    subst (λ x. Step order (ledger t) x (ledger t')) (sym h)
      (rejected e (ledger t') (ap ledger same))
Outcome-Step order t t' r (unknown e o h c) =
    subst (λ x. Step order (ledger t) x (ledger t')) (sym h)
      (uncertain e c.row.id (ledger t') (created-put order o t t' c))

-- What a list of calls returned, one step behind the other.
pub data History : Ledger → List (Order × Result (Order × Bool)) → Ledger → Type 0 where
  nothing : (l l' : Ledger) → l' ≡ l → History l [] l'
  call :
      (order : Order) (r : Result (Order × Bool)) (l l1 l' : Ledger)
      (rest : List (Order × Result (Order × Bool)))
      → Step order l r l1
      → History l1 rest l'
      → History l ((order, r) ∷ rest) l'

module _ (d : PgDriver) (pg : IsPostgres d) where
  open d use {State}

  -- Calls of Create, one behind the other, with what they return and the state that they leave.
  abbrev pub calls : List Order → State → List (Order × Result (Order × Bool)) × State
  calls [] s = ([], s)
  calls (order ∷ orders) s =
      let (r, s1) = create d order s in let (rest, s') = calls orders s1 in ((order, r) ∷ rest, s')

  -- Any list of calls of Create does to the tables what the same calls do to a map from keys to
  -- entries: a success puts the order if its key is new, reports whether it was, and returns an order
  -- with the id of the key's entry; a failure leaves the map, or put the order under a new key.
  calls-History :
      (orders : List Order) (s : State)
      → History
          (ledger (pg.committed s))
          (calls orders s).0
          (ledger (pg.committed (calls orders s).1))
  calls-History [] s = nothing _ _ refl
  calls-History (order ∷ orders) s =
      call order (create d order s).0 _ (ledger (pg.committed (create d order s).1)) _ _
        (Outcome-Step order (pg.committed s) _ (create d order s).0 (create-OutcomeAt d pg order s))
        (calls-History orders (create d order s).1)
