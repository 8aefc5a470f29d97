-- ===== src/Repo/Interleaving/Server.antt =====
-- The calls of OrderRepo.Create that run at the same time: what they use of pgx and of PostgreSQL, one
-- statement of a transaction at a time, as a parameter; and its documented behaviour at the default
-- isolation level, READ COMMITTED, on the tables of migrations/order/000001_orders.up.sql.
-- A transaction is named by the number of the call that opened it.
use mathlib.Core.List.{Perm}
use checkout_saga.Common.{
  true, false, Bool, ℕ, ◌≡◌, ◌≢◌, ◌⊎◌, List, [], ◌∷◌, Option, none, some, map, All, length,
  if◌then◌else◌,
}
use checkout_saga.Common.Family.{update}
use checkout_saga.Common.Text.{Text, text_eq}
use checkout_saga.Common.Int.{pos}
use checkout_saga.GoError.{Error, is_error, no_rows, Result, ok, err}
use checkout_saga.Repo.Driver.{OrderRow, ItemRow, Querier, ItemArgs, Batch}
use checkout_saga.Repo.Postgres.{Tables, find_key, find_id, row_args, Reads, SameUuid, stored_args}

pub record PgServer : Type 1 where
  pub Server : Type 0
  -- `none` while no connection of the pool is free
  pub begin : ℕ → Server → Option (Result (Unit {0}) × Server)
  -- `none` while the statement waits for another transaction
  pub insert_order :
      ℕ → (user_id total_text status key : Text) → Server → Option (Result Text × Server)
  pub send_batch : ℕ → (order_id : Text) → List ItemArgs → Server → Batch × Server
  -- the reads of an open transaction
  pub in_tx : ℕ → Server → Querier
  pub commit : ℕ → Server → Result (Unit {0}) × Server
  pub rollback : ℕ → Server → Result (Unit {0}) × Server

-- What an open transaction has written: the row of an order, and its lines.
pub record Own : Type 0 where
  pub row : OrderRow
  pub lines : List ItemRow

-- What is committed, and what each open transaction has written.
pub record View : Type 0 where
  pub tables : Tables
  pub own : ℕ → Option Own

-- The tables as a transaction sees them: what is committed, and behind it what it wrote itself.
abbrev pub merged : Tables → Option Own → Tables
merged t none = t
merged t (some w) = record {
  orders = w.row ∷ t.orders;
  items = λ id. if text_eq w.row.id id then w.lines else t.items id;
}

-- The view once transaction `i` has written `w`.
abbrev pub writes : View → ℕ → Option Own → View
writes v i w = record v { own = update v.own i w }

-- The view once transaction `i` is committed.
abbrev pub commits : View → ℕ → View
commits v i = record { tables = merged v.tables (v.own i); own = update v.own i none }

-- A row that the INSERT may return the id of: it holds the arguments, the user's id as a UUID; its key and its id are neither in
-- the committed tables nor written by another open transaction.
pub record IsFresh (v : View) (i : ℕ) (user_id total_text status key id : Text) (row : OrderRow)
    : Type 0 where
  pub new_key : find_key key v.tables.orders ≡ none
  pub new_id : find_id id v.tables.orders ≡ none
  pub apart :
      (j : ℕ) (w : Own) → i ≢ j → v.own j ≡ some w → (w.row.idempotency_key ≢ key) × (w.row.id ≢ id)
  pub id_lem : row.id ≡ id
  pub user_id_lem : SameUuid row.user_id user_id
  pub total_lem : row.total_text ≡ total_text
  pub status_lem : row.status ≡ status
  pub key_lem : row.idempotency_key ≡ key
  pub version_lem : row.version ≡ pos 0

pub record IsServer (srv : PgServer) : Type 0 where
  pub view : srv.Server → View
  pub begin_lem :
      (i : ℕ) (s s' : srv.Server) (r : Result (Unit {0}))
      → srv.begin i s ≡ some (r, s')
      → view s' ≡ view s
  pub insert_ok :
      (i : ℕ) (u t st k id : Text) (s s' : srv.Server)
      → (view s).own i ≡ none
      → srv.insert_order i u t st k s ≡ some (ok id, s')
      → (row : OrderRow) × IsFresh (view s) i u t st k id row
        × (view s' ≡ writes (view s) i (some (record { row = row; lines = [] })))
  -- ON CONFLICT DO NOTHING, and any failure, leave everything as it was
  pub insert_err :
      (i : ℕ) (u t st k : Text) (s s' : srv.Server) (e : Error)
      → srv.insert_order i u t st k s ≡ some (err e, s')
      → view s' ≡ view s
  -- no row comes back only where the key is committed
  pub insert_conflict :
      (i : ℕ) (u t st k : Text) (s s' : srv.Server) (e : Error)
      → srv.insert_order i u t st k s ≡ some (err e, s')
      → is_error no_rows e ≡ true
      → find_key k (view s).tables.orders ≢ none
  -- the unique index makes the statement wait for the transaction that has written the key
  pub insert_waits :
      (i : ℕ) (u t st k : Text) (s : srv.Server)
      → srv.insert_order i u t st k s ≡ none
      → (j : ℕ) × (w : Own) × (i ≢ j) × ((view s).own j ≡ some w) × (w.row.idempotency_key ≡ k)
  pub batch_length :
      (i : ℕ) (id : Text) (args : List ItemArgs) (s : srv.Server)
      → length (srv.send_batch i id args s).0.results ≡ length args
  pub batch_lem :
      (i : ℕ) (args : List ItemArgs) (s s' : srv.Server) (b : Batch) (w : Own)
      → (view s).own i ≡ some w
      → srv.send_batch i w.row.id args s ≡ (b, s')
      → (lines : List ItemRow) × (view s' ≡ writes (view s) i (some (record w { lines = lines })))
        × (All (λ (r : Result (Unit {0})). r ≡ ok tt) b.results
            → b.closed ≡ ok tt
            → w.lines ≡ []
            → Perm (map row_args lines) (map stored_args args))
  pub reads :
      (i : ℕ) (s : srv.Server) → Reads (srv.in_tx i s) (merged (view s).tables ((view s).own i))
  pub commit_ok :
      (i : ℕ) (s s' : srv.Server) → srv.commit i s ≡ (ok tt, s') → view s' ≡ commits (view s) i
  -- after a failed commit the client cannot tell which
  pub commit_err :
      (i : ℕ) (s s' : srv.Server) (e : Error)
      → srv.commit i s ≡ (err e, s')
      → (view s' ≡ writes (view s) i none) ⊎ (view s' ≡ commits (view s) i)
  pub rollback_lem : (i : ℕ) (s : srv.Server) → view (srv.rollback i s).1 ≡ writes (view s) i none

-- The pool behind Begin: a call holds a connection from Begin to Commit or Rollback, whatever they
-- return, and Begin waits only while some call holds one.
pub record IsPool (srv : PgServer) : Type 0 where
  pub connected : srv.Server → ℕ → Bool
  pub begin_takes :
      (i : ℕ) (s s' : srv.Server)
      → srv.begin i s ≡ some (ok tt, s')
      → connected s' ≡ update (connected s) i true
  pub begin_fails :
      (i : ℕ) (s s' : srv.Server) (e : Error)
      → srv.begin i s ≡ some (err e, s')
      → connected s' ≡ connected s
  pub begin_waits :
      (i : ℕ) (s : srv.Server) → srv.begin i s ≡ none → (j : ℕ) × (connected s j ≡ true)
  pub insert_keeps :
      (i : ℕ) (u t st k : Text) (s s' : srv.Server) (r : Result Text)
      → srv.insert_order i u t st k s ≡ some (r, s')
      → connected s' ≡ connected s
  pub batch_keeps :
      (i : ℕ) (id : Text) (args : List ItemArgs) (s : srv.Server)
      → connected (srv.send_batch i id args s).1 ≡ connected s
  pub commit_frees :
      (i : ℕ) (s : srv.Server) → connected (srv.commit i s).1 ≡ update (connected s) i false
  pub rollback_frees :
      (i : ℕ) (s : srv.Server) → connected (srv.rollback i s).1 ≡ update (connected s) i false
