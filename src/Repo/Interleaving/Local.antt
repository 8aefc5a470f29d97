-- ===== src/Repo/Interleaving/Local.antt =====
-- What a call knows of the server where it stands, and that the other calls leave it so.
use mathlib.Core.List.{Perm}
use checkout_saga.Common.{◌≡◌, Bool, true, false, [], Option, none, some, map}
use checkout_saga.Common.Int.{ℤ}
use checkout_saga.GoError.{Result, ok, err}
use checkout_saga.Money.{parse_money, money_string}
use checkout_saga.Order.{Order, status_text}
use checkout_saga.Repo.{item_args, order_of_row}
use checkout_saga.Repo.Driver.{OrderRow}
use checkout_saga.Repo.Postgres.{Tables, find_key, row_args, SameUuid, stored_args}
use checkout_saga.Repo.Loading.{IsStored}
use checkout_saga.Repo.Idempotency.{Holds}
use checkout_saga.Repo.Interleaving.{
  Pc, idle, begun, inserted, filled, conflicted, found, loaded, closing, returned,
}
use checkout_saga.Repo.Interleaving.Server.{Own}
use checkout_saga.Repo.Interleaving.Serial.{Extends}

-- The transaction has written the order's row.
pub record IsWritten (order : Order) (o : Option Own) (w : Own) : Type 0 where
  pub own : o ≡ some w
  pub user_id_lem : SameUuid w.row.user_id order.user_id
  pub total_lem : w.row.total_text ≡ money_string order.total_amount
  pub status_lem : w.row.status ≡ status_text order.status
  pub key_lem : w.row.idempotency_key ≡ order.idempotency_key

-- It has written the order's lines as well.
abbrev pub IsFull : Order → Own → Type 0
IsFull order w = Perm (map row_args w.lines) (map stored_args (map item_args order.items))

-- The order that scanOrder makes of a row.
abbrev pub IsScanned : OrderRow → Order → Type 0
IsScanned row o =
    (total : ℤ) × (parse_money row.total_text ≡ ok total) × (o ≡ order_of_row row total)

-- A success is the order of the key.
abbrev pub IsAnswer : Order → Tables → Result (Order × Bool) → Type 0
IsAnswer order t (ok (o, _)) = Holds t order.idempotency_key o
IsAnswer order t (err _) = Unit

abbrev pub Local : Order → Tables → Option Own → Pc → Type 0
Local order t o idle = o ≡ none
Local order t o begun = o ≡ none
Local order t o (inserted id) = (w : Own) × IsWritten order o w × (w.row.id ≡ id) × (w.lines ≡ [])
Local order t o (filled id) = (w : Own) × IsWritten order o w × (w.row.id ≡ id) × IsFull order w
Local order t o conflicted =
    (row : OrderRow) × (o ≡ none) × (find_key order.idempotency_key t.orders ≡ some row)
Local order t o (found true x) =
    (w : Own) × IsWritten order o w × IsFull order w × IsScanned w.row x
Local order t o (found false x) =
    (row : OrderRow) × (o ≡ none)
    × (find_key order.idempotency_key t.orders ≡ some row)
    × IsScanned row x
Local order t o (loaded true x) =
    (w : Own) × IsWritten order o w × IsFull order w × IsStored w.row w.lines x
Local order t o (loaded false x) = (o ≡ none) × Holds t order.idempotency_key x
Local order t o (closing r) = IsAnswer order t r
Local order t o (returned r) = (o ≡ none) × IsAnswer order t r

module _ (order : Order) {t t' : Tables} (ext : Extends t t') where
  IsAnswer-Extends : (r : Result (Order × Bool)) → IsAnswer order t r → IsAnswer order t' r
  IsAnswer-Extends (ok (o, b)) h = ext.holds order.idempotency_key o h
  IsAnswer-Extends (err e) h = tt

  pub Local-Extends : (o : Option Own) (p : Pc) → Local order t o p → Local order t' o p
  Local-Extends o idle h = h
  Local-Extends o begun h = h
  Local-Extends o (inserted id) h = h
  Local-Extends o (filled id) h = h
  Local-Extends o conflicted (row, e, f) = (row, e, ext.key order.idempotency_key row f)
  Local-Extends o (found true x) h = h
  Local-Extends o (found false x) (row, e, f, s) = (row, e, ext.key order.idempotency_key row f, s)
  Local-Extends o (loaded true x) h = h
  Local-Extends o (loaded false x) (e, h) = (e, ext.holds order.idempotency_key x h)
  Local-Extends o (closing r) h = IsAnswer-Extends r h
  Local-Extends o (returned r) (e, h) = (e, IsAnswer-Extends r h)
