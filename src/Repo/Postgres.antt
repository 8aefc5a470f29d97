-- ===== src/Repo/Postgres.antt =====
-- The documented behaviour of PostgreSQL and pgx that the repository relies on, as laws of a driver.
-- Keys do not end in spaces here, as the handler trims them: VARCHAR(255) cuts off spaces beyond it.
-- A transaction of Create is one step of the database here; `Repo.Interleaving` takes it apart.
use mathlib.Core.List.{Perm}
use checkout_saga.Common.{
  ◌==◌, ◌||◌, ◌≡◌, ◌≢◌, ◌⊎◌, true, false, List, [], ◌∷◌, Option, none, some, map, All, length,
  if◌then◌else◌,
}
use checkout_saga.Common.Int.{pos}
use checkout_saga.Common.Text.{Text, text_eq}
use checkout_saga.Common.Text.Lower.{lower_byte}
use checkout_saga.GoError.{Error, is_error, no_rows, order_not_found, Result, ok, err}
use checkout_saga.Repo.Driver.{OrderRow, ItemRow, Rows, Querier, ItemArgs, Batch, PgDriver}

-- The contents of orders and order_items: order_items by its order_id, in the order of SELECT.
pub record Tables : Type 0 where
  pub orders : List OrderRow
  pub items : Text → List ItemRow

unfoldable pub find_key : Text → List OrderRow → Option OrderRow
find_key key [] = none
find_key key (row ∷ rows) = if text_eq row.idempotency_key key then some row else find_key key rows

unfoldable pub find_id : Text → List OrderRow → Option OrderRow
find_id id [] = none
find_id id (row ∷ rows) = if text_eq row.id id then some row else find_id id rows

-- The digits of a UUID in lower case. PostgreSQL reads capitals, braces and left out or other hyphens, and
-- prints the standard form: the text of a UUID that comes back has the digits of the one that was put in.
unfoldable pub uuid_digits : Text → Text
uuid_digits [] = []
uuid_digits (c ∷ t) =
    let rest = uuid_digits t in
    if c == b'-' || c == b'{' || c == b'}' then rest else lower_byte c ∷ rest

abbrev pub SameUuid : Text → Text → Type 0
SameUuid a b = uuid_digits a ≡ uuid_digits b

-- The columns of a line that the source inserts, its product by its digits.
unfoldable pub row_args : ItemRow → ItemArgs
row_args row = record {
  product_id = uuid_digits row.product_id;
  quantity = row.quantity;
  price_text = row.price_text;
}

-- The arguments of such an INSERT, the product by its digits.
unfoldable pub stored_args : ItemArgs → ItemArgs
stored_args a = record a { product_id = uuid_digits a.product_id }

-- The row that a query by an id has found: the id may be spelled otherwise, but where it is as a row has
-- it, the row is that one.
pub record IsFoundById (t : Tables) (id : Text) (row : OrderRow) : Type 0 where
  pub there : find_id row.id t.orders ≡ some row
  pub spelled : SameUuid row.id id
  pub same : (r : OrderRow) → find_id id t.orders ≡ some r → r ≡ row

-- A querier reads these tables. Any call may fail; a driver's error is never the domain's.
pub record Reads (q : Querier) (t : Tables) : Type 0 where
  pub by_id_ok : (id : Text) (row : OrderRow) → q.order_by_id id ≡ ok row → IsFoundById t id row
  pub by_id_none :
      (id : Text) (e : Error)
      → q.order_by_id id ≡ err e
      → is_error no_rows e ≡ true
      → find_id id t.orders ≡ none
  pub by_key_ok :
      (key : Text) (row : OrderRow) → q.order_by_key key ≡ ok row → find_key key t.orders ≡ some row
  -- the lines of an order, by its id as its row has it
  pub items_ok :
      (id : Text) (rows : Rows) (l : List ItemRow)
      → find_id id t.orders ≢ none
      → q.items_of id ≡ ok rows
      → rows.ended ≡ none
      → rows.scans ≡ map ok l
      → l ≡ t.items id
  pub by_id_foreign :
      (id : Text) (e : Error) → q.order_by_id id ≡ err e → is_error order_not_found e ≡ false
  pub items_foreign :
      (id : Text) (e : Error) → q.items_of id ≡ err e → is_error order_not_found e ≡ false
  pub scans_foreign :
      (id : Text) (rows : Rows)
      → q.items_of id ≡ ok rows
      → All (λ scan. (e : Error) → scan ≡ err e → is_error order_not_found e ≡ false) rows.scans
  pub ended_foreign :
      (id : Text) (rows : Rows) (e : Error)
      → q.items_of id ≡ ok rows
      → rows.ended ≡ some e
      → is_error order_not_found e ≡ false

-- An INSERT into orders that returned an id: the key and the id are new, and the row holds the
-- arguments, the user's id as a UUID; total_amount is a DECIMAL(10, 2) and gives a text with two decimals back as it was.
pub record IsInserted (t : Tables) (user_id total_text status key id : Text) (t' : Tables)
    : Type 0 where
  pub row : OrderRow
  pub added : t'.orders ≡ row ∷ t.orders
  pub same_items : t'.items ≡ t.items
  pub new_key : find_key key t.orders ≡ none
  pub new_id : find_id id t.orders ≡ none
  pub no_items : t.items id ≡ []
  pub id_lem : row.id ≡ id
  pub user_id_lem : SameUuid row.user_id user_id
  pub total_lem : row.total_text ≡ total_text
  pub status_lem : row.status ≡ status
  pub key_lem : row.idempotency_key ≡ key
  pub version_lem : row.version ≡ pos 0

-- A batch of INSERTs into order_items that succeeded: the rows hold the arguments, in some order.
pub record IsFilled (t : Tables) (id : Text) (args : List ItemArgs) (t' : Tables) : Type 0 where
  pub same_orders : t'.orders ≡ t.orders
  pub others : (j : Text) → j ≢ id → t'.items j ≡ t.items j
  pub lines : t.items id ≡ [] → Perm (map row_args (t'.items id)) (map stored_args args)

pub record IsPostgres (d : PgDriver) : Type 0 where
  pub committed : d.State → Tables
  pub seen : d.Tx → Tables
  pub begin_sees : (s : d.State) (tx : d.Tx) → d.begin s ≡ ok tx → seen tx ≡ committed s
  pub insert_ok :
      (u t st k id : Text) (tx tx' : d.Tx)
      → d.insert_order u t st k tx ≡ (ok id, tx')
      → IsInserted (seen tx) u t st k id (seen tx')
  -- ON CONFLICT DO NOTHING: no row comes back exactly where the key is there, and nothing changes
  pub insert_conflict :
      (u t st k : Text) (tx tx' : d.Tx) (e : Error)
      → d.insert_order u t st k tx ≡ (err e, tx')
      → is_error no_rows e ≡ true
      → seen tx' ≡ seen tx
  pub batch_length :
      (id : Text) (args : List ItemArgs) (tx : d.Tx)
      → length (d.send_batch id args tx).0.results ≡ length args
  pub batch_ok :
      (id : Text) (args : List ItemArgs) (tx tx' : d.Tx) (b : Batch)
      → d.send_batch id args tx ≡ (b, tx')
      → All (λ (r : Result (Unit {0})). r ≡ ok tt) b.results
      → b.closed ≡ ok tt
      → IsFilled (seen tx) id args (seen tx')
  pub tx_reads : (tx : d.Tx) → Reads (d.in_tx tx) (seen tx)
  pub pool_reads : (s : d.State) → Reads (d.on_pool s) (committed s)
  pub commit_ok :
      (tx : d.Tx) (s s' : d.State) → d.commit tx s ≡ (ok tt, s') → committed s' ≡ seen tx
  -- after a failed commit the client cannot tell which
  pub commit_err :
      (tx : d.Tx) (s s' : d.State) (e : Error)
      → d.commit tx s ≡ (err e, s')
      → (committed s' ≡ committed s) ⊎ (committed s' ≡ seen tx)
  pub rollback_keeps : (tx : d.Tx) (s : d.State) → committed (d.rollback tx s).1 ≡ committed s
