-- ===== src/Repo/Interleaving.antt =====
-- internal/order/repo/order-postgres.go, OrderRepo.Create as several callers run it at the same time:
-- the steps of a call between two statements, and the system of all calls. Call `i` stores `orders i`
-- in transaction `i`. A batch is one step: its rows belong to an order that no other transaction sees.
pub mod Server
pub mod Apart
pub mod Serial
pub mod Local
pub mod Invariant
pub mod Moves
pub mod Safety
pub mod Races
pub mod Atomic
pub mod Readers
pub mod Balance
pub mod Progress
pub mod Pool
pub mod Deadlock
pub mod Completion
pub mod Shared
mod Tests
use checkout_saga.Common.{
  ℕ, suc, ◌<◌, String, ◌≡◌, Bool, true, false, List, [], ◌∷◌, Option, none, some, map,
  if◌then◌else◌,
}
use checkout_saga.Common.Family.{update}
use checkout_saga.Common.Text.{Text}
use checkout_saga.GoError.{Error, prefixed, is_error, no_rows, Result, ok, err, ◌>>=◌, annotate}
use checkout_saga.Money.{money_string}
use checkout_saga.Order.{Order, status_text}
use checkout_saga.Repo.{scan_order, attach_items, item_args, exec_results}
use checkout_saga.Repo.Driver.{Batch}
use Server.{PgServer}

-- Where a call stands, with the local variables that are live there.
pub data Pc : Type 0 where
  idle : Pc  -- before Begin
  begun : Pc  -- before the INSERT
  inserted : (order_id : Text) → Pc  -- before insertItems
  filled : (order_id : Text) → Pc  -- before loadOrderByID
  conflicted : Pc  -- before loadOrderByKey
  found : (created : Bool) (order : Order) → Pc  -- in the load, before attachItems
  loaded : (created : Bool) (order : Order) → Pc  -- before Commit
  closing : Result (Order × Bool) → Pc  -- before the deferred Rollback
  returned : Result (Order × Bool) → Pc

-- Begin; behind a failed one there is nothing to roll back.
unfoldable pub after_begin : Result (Unit {0}) → Pc
after_begin (ok _) = begun
after_begin (err e) = returned (err (prefixed "OrderRepo.Create: begin: " e))

-- The switch on the error of the INSERT.
unfoldable pub after_insert : Result Text → Pc
after_insert (ok order_id) = inserted order_id
after_insert (err e) =
    if is_error no_rows e
    then conflicted
    else closing (err (prefixed "OrderRepo.Create: insert order: " e))

-- insertItems: what it returns, from the results of the batch
unfoldable pub batch_result : Order → Batch → Result (Unit {0})
batch_result order batch =
    exec_results order.items batch.results
    >>= (λ _. annotate "insertItems: close batch: " batch.closed)

unfoldable pub after_batch : Text → Result (Unit {0}) → Pc
after_batch order_id (ok _) = filled order_id
after_batch order_id (err e) = closing (err (prefixed "OrderRepo.Create: " e))

-- What Create and the load function put before an error: on the path of a new order, and on that of a
-- key that is stored.
abbrev pub create_prefix : Bool → String
create_prefix true = "OrderRepo.Create: reload: "
create_prefix false = "OrderRepo.Create: load existing: "

abbrev pub load_prefix : Bool → String
load_prefix true = "loadOrderByID: "
load_prefix false = "loadOrderByKey: "

-- The first statement of a load function: the row.
unfoldable pub after_row : Bool → Result Order → Pc
after_row created (ok order) = found created order
after_row created (err e) =
    closing (err (prefixed (create_prefix created) (prefixed (load_prefix created) e)))

-- The second one: the lines.
unfoldable pub after_items : Bool → Result Order → Pc
after_items created (ok order) = loaded created order
after_items created (err e) =
    closing (err (prefixed (create_prefix created) (prefixed (load_prefix created) e)))

unfoldable pub after_commit : Bool → Order → Result (Unit {0}) → Pc
after_commit created order committed =
    closing (annotate "OrderRepo.Create: commit: " committed >>= (λ _. ok (order, created)))

-- What a call returns, from the point on where that is settled.
abbrev pub settled : Pc → Option (Result (Order × Bool))
settled (closing r) = some r
settled (returned r) = some r
settled _ = none

-- The log behind a step of call `i`.
abbrev pub note :
    ℕ
    → Option (Result (Order × Bool))
    → Option (Result (Order × Bool))
    → List (ℕ × Result (Order × Bool))
    → List (ℕ × Result (Order × Bool))
note i none (some r) log = (i, r) ∷ log
note i _ _ log = log

module _ (srv : PgServer) where
  open srv use {Server}

  -- Begin and where the call stands behind it; `none` if it waits for a connection.
  unfoldable pub after_begin_tx : Option (Result (Unit {0}) × Server) → Option (Pc × Server)
  after_begin_tx none = none
  after_begin_tx (some (r, s)) = some (after_begin r, s)

  -- The INSERT and where the call stands behind it; `none` if it waits.
  unfoldable pub after_insert_order : Option (Result Text × Server) → Option (Pc × Server)
  after_insert_order none = none
  after_insert_order (some (r, s)) = some (after_insert r, s)

  -- The next step of a call: to the statement that comes next, and on to the one behind it.
  unfoldable pub advance : ℕ → Order → Pc → Server → Option (Pc × Server)
  advance i order idle s = after_begin_tx (srv.begin i s)
  advance i order begun s = after_insert_order (
      srv.insert_order i order.user_id (money_string order.total_amount) (status_text order.status)
        order.idempotency_key s)
  advance i order (inserted order_id) s =
      let (batch, s') = srv.send_batch i order_id (map item_args order.items) s in
      some (after_batch order_id (batch_result order batch), s')
  advance i order (filled order_id) s =
      some (after_row true (scan_order ((srv.in_tx i s).order_by_id order_id)), s)
  advance i order conflicted s =
      some (after_row false (scan_order ((srv.in_tx i s).order_by_key order.idempotency_key)), s)
  advance i order (found created row) s =
      some (after_items created (attach_items (srv.in_tx i s) row), s)
  advance i order (loaded created row) s =
      let (r, s') = srv.commit i s in some (after_commit created row r, s')
  advance i order (closing r) s = some (returned r, (srv.rollback i s).1)
  advance i order (returned r) s = none

  -- All calls: the server, where each one stands, and what the settled ones return, the latest first.
  pub record System : Type 0 where
    pub server : Server
    pub pc : ℕ → Pc
    pub log : List (ℕ × Result (Order × Bool))

  module _ (orders : ℕ → Order) where
    -- One step of one of the calls below `n`.
    pub data Step (n : ℕ) (s : System) : System → Type 0 where
      pick :
          (i : ℕ) {p : Pc} {server : Server}
          → i < n
          → advance i (orders i) (s.pc i) s.server ≡ some (p, server)
          → Step n s (record {
            server = server;
            pc = update s.pc i p;
            log = note i (settled (s.pc i)) (settled p) s.log;
          })

    -- No call has begun.
    abbrev pub initial : Server → System
    initial server = record { server = server; pc = λ _. idle; log = [] }

    -- The states that some interleaving of the calls leads to, with the number of steps.
    pub data Reach (n : ℕ) (server : Server) : ℕ → System → Type 0 where
      start : Reach n server 0 (initial server)
      later : {k : ℕ} {s t : System} → Reach n server k s → Step n s t → Reach n server (suc k) t
