-- ===== src/Repo/Interleaving/Readers.antt =====
-- What a reader sees while calls of OrderRepo.Create interleave: no order without its lines.
use mathlib.Core.List.{Perm}
use checkout_saga.Common.{
  ◌≡◌, ◌≢◌, refl, sym, ap, ◌∙◌, subst, ℕ, Bool, List, [], ◌∷◌, some, map, arith, inl, inr, ◌⊎◌,
  Bool-cases,
}
use checkout_saga.Common.Text.{Text, text_eq, text_eq_iff}
use checkout_saga.GoError.{Result, ok}
use checkout_saga.Money.{money_string}
use checkout_saga.Order.{Order, status_text}
use checkout_saga.Repo.{item_args, load_order_by_id}
use checkout_saga.Repo.Driver.{OrderRow, Querier}
use checkout_saga.Repo.Postgres.{Tables, find_id, row_args, Reads, SameUuid, stored_args}
use checkout_saga.Repo.Keys.{find_id-id}
use checkout_saga.Repo.Loading.{IsStored, load_order_by_id-IsStored}
use checkout_saga.Repo.Creating.{IsCreated, Outcome, created, replayed, failed, unknown}
use checkout_saga.Repo.Interleaving.{System, Reach}
use checkout_saga.Repo.Interleaving.Server.{PgServer, IsServer}
use checkout_saga.Repo.Interleaving.Serial.{Serial, nothing, call}
use checkout_saga.Repo.Interleaving.Safety.{IsQuiet, Reach-Serial}

-- A row with the columns of an order, UUIDs by their digits, and all of the order's lines.
pub record IsWhole (order : Order) (t : Tables) (row : OrderRow) : Type 0 where
  pub user_id_lem : SameUuid row.user_id order.user_id
  pub total_lem : row.total_text ≡ money_string order.total_amount
  pub status_lem : row.status ≡ status_text order.status
  pub key_lem : row.idempotency_key ≡ order.idempotency_key
  pub lines : Perm (map row_args (t.items row.id)) (map stored_args (map item_args order.items))

-- Where a row of the tables comes from: it was there at first, with these lines, or a call stored it.
pub data Origin (orders : ℕ → Order) (t0 t : Tables) (row : OrderRow) : Type 0 where
  first :
      find_id row.id t0.orders ≡ some row
      → t.items row.id ≡ t0.items row.id
      → Origin orders t0 t row
  by_call : (i : ℕ) → IsWhole (orders i) t row → Origin orders t0 t row

find_id-cons_cases :
    (id : Text) (new row : OrderRow) (rows : List OrderRow)
    → find_id id (new ∷ rows) ≡ some row
    → (new ≡ row) ⊎ ((new.id ≢ id) × (find_id id rows ≡ some row))
unfolding find_id
find_id-cons_cases id new row rows h = elim (Bool-cases (text_eq new.id id)) [
  | inl same ↦ inl (ground arith)
  | inr other ↦ inr (λ e. ground (arith, (text_eq_iff new.id id).1 e), ground arith)
]

module _ (orders : ℕ → Order) (t0 : Tables) where
  Origin-kept :
      (t t' : Tables) (row : OrderRow)
      → t'.items row.id ≡ t.items row.id
      → Origin orders t0 t row
      → Origin orders t0 t' row
  Origin-kept t t' row same (first h lines) = first h (same ∙ lines)
  Origin-kept t t' row same (by_call i w) = by_call i (record {
    user_id_lem = w.user_id_lem;
    total_lem = w.total_lem;
    status_lem = w.status_lem;
    key_lem = w.key_lem;
    lines =
        subst (λ l. Perm (map row_args l) (map stored_args (map item_args (orders i).items)))
          (sym same) w.lines;
  })

  created-Origin :
      (i : ℕ) (t t' : Tables) (o : Order) (id : Text) (row : OrderRow)
      → IsCreated (orders i) t t' o
      → find_id id t'.orders ≡ some row
      → (find_id id t.orders ≡ some row → Origin orders t0 t row)
      → Origin orders t0 t' row
  created-Origin i t t' o id row c found old =
      elim (find_id-cons_cases id c.row row t.orders (ap (find_id id) (sym c.added) ∙ found)) [
        | inl new ↦ by_call i (
            subst (IsWhole (orders i) t') new (record {
              user_id_lem = c.user_id_lem;
              total_lem = c.total_lem;
              status_lem = c.status_lem;
              key_lem = c.key_lem;
              lines = c.lines;
            }))
        | inr (other, there) ↦
            Origin-kept t t' row
              (c.others row.id (λ e. other (sym e ∙ find_id-id id t.orders row there))) (old there)
      ]

  Outcome-Origin :
      (i : ℕ) (t t' : Tables) (r : Result (Order × Bool)) (id : Text) (row : OrderRow)
      → (find_id id t.orders ≡ some row → Origin orders t0 t row)
      → find_id id t'.orders ≡ some row
      → Outcome (orders i) t t' r
      → Origin orders t0 t' row
  Outcome-Origin i t t' r id row old h (created o e c) = created-Origin i t t' o id row c h old
  Outcome-Origin i t t' r id row old h (replayed o row' e f st same) =
      subst (λ x. find_id id x.orders ≡ some row → Origin orders t0 x row) (sym same) old h
  Outcome-Origin i t t' r id row old h (failed e e' same) =
      subst (λ x. find_id id x.orders ≡ some row → Origin orders t0 x row) (sym same) old h
  Outcome-Origin i t t' r id row old h (unknown e o e' c) = created-Origin i t t' o id row c h old

  Serial-Origin :
      (log : List (ℕ × Result (Order × Bool))) (t : Tables) (id : Text) (row : OrderRow)
      → Serial orders t0 log t
      → find_id id t.orders ≡ some row
      → Origin orders t0 t row
  Serial-Origin [] t id row nothing h =
      first (ap (λ x. find_id x t.orders) (find_id-id id t.orders row h) ∙ h) refl
  Serial-Origin ((k, r) ∷ log) t id row (call {t = t1} _ _ s out) h =
      Outcome-Origin k t1 t r id row (Serial-Origin log t1 id row s) h out

-- From a state of the server in which no transaction has written anything, however the statements
-- of the calls interleave, a reader of the committed tables that finds an order finds it whole: it
-- is stored in a row that was there at first, with the lines that it had, or in the row of a call,
-- with that order's columns and all of its lines, UUIDs by their digits.
pub load_order_by_id-Origin :
    (srv : PgServer) (is : IsServer srv) (orders : ℕ → Order) (n : ℕ) (server : srv.Server) (k : ℕ)
    (s : System srv) (q : Querier) (id : Text) (o : Order)
    → IsQuiet srv is server
    → Reach srv orders n server k s
    → Reads q (is.view s.server).tables
    → load_order_by_id q id ≡ ok o
    → (row : OrderRow) × IsStored row ((is.view s.server).tables.items row.id) o
      × Origin orders (is.view server).tables (is.view s.server).tables row
load_order_by_id-Origin srv is orders n server k s q id o quiet r reads h =
    let (row, found, stored) = load_order_by_id-IsStored reads id o h in
    (
      row,
      stored,
      Serial-Origin orders (is.view server).tables s.log (is.view s.server).tables row.id row
          (Reach-Serial srv is orders n server k s quiet r).0 found.there,
    )
