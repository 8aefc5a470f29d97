-- ===== src/Repo/Memory.antt =====
-- A driver over two lists in memory: the laws of `Repo.Postgres` can be met. A new id is longer than
-- every id in the tables.
pub mod Laws
use checkout_saga.Common.{
  ◌<◌, ◌≡◌, refl, ap, false, List, [], ◌∷◌, ◌++◌, Option, none, some, map, length, length-append,
  arith, if◌then◌else◌, Bool-cases, inl, inr,
}
use checkout_saga.Common.Int.{pos}
use checkout_saga.Common.Text.{Text, text_eq, text_eq_iff}
use checkout_saga.GoError.{base, no_rows, tx_closed, Result, ok, err}
use checkout_saga.Repo.Driver.{OrderRow, ItemRow, Querier, ItemArgs, Batch, PgDriver}
use checkout_saga.Repo.Postgres.{Tables, find_key, find_id}

pub record Memory : Type 0 where
  pub orders : List OrderRow
  pub lines : List ItemRow

lines_of : Text → List ItemRow → List ItemRow
unfolding text_eq
lines_of id [] = []
lines_of id (row ∷ rows) =
    let rest = lines_of id rows in if text_eq row.order_id id then row ∷ rest else rest

unfoldable pub order_ids : List OrderRow → Text
order_ids [] = []
order_ids (row ∷ rows) = row.id ++ order_ids rows

line_ids : List ItemRow → Text
line_ids [] = []
line_ids (row ∷ rows) = row.order_id ++ line_ids rows

new_id : Memory → Text
unfolding order_ids line_ids
new_id m = b'x' ∷ (order_ids m.orders ++ line_ids m.lines)

unfoldable tables : Memory → Tables
tables m = record { orders = m.orders; items = λ id. lines_of id m.lines }

found_or_none : Option OrderRow → Result OrderRow
found_or_none (some row) = ok row
found_or_none none = err (base no_rows)

-- The reads of tables, without an error.
unfoldable pub reader_of : Tables → Querier
unfolding found_or_none find_id find_key
reader_of t = record {
  order_by_id = λ id. found_or_none (find_id id t.orders);
  order_by_key = λ key. found_or_none (find_key key t.orders);
  items_of = λ id. ok (record { scans = map ok (t.items id); ended = none });
}

reader : Memory → Querier
unfolding reader_of tables lines_of
reader m = reader_of (tables m)

unfoldable pub new_row : (id user_id total_text status key : Text) → OrderRow
new_row id user_id total_text status key = record {
  id = id;
  user_id = user_id;
  total_text = total_text;
  status = status;
  idempotency_key = key;
  version = pos 0;
  created_at = 1;
  updated_at = 1;
}

insert_if : Option OrderRow → (user_id total_text status key : Text) → Memory → Result Text × Memory
unfolding new_row new_id
insert_if (some row) u t st k m = (err (base no_rows), m)
insert_if none u t st k m =
    (ok (new_id m), record m { orders = new_row (new_id m) u t st k ∷ m.orders })

unfoldable pub new_line : Text → ItemArgs → ItemRow
new_line id a = record {
  id = a.product_id;
  order_id = id;
  product_id = a.product_id;
  quantity = a.quantity;
  price_text = a.price_text;
}

unfoldable pub new_lines : Text → List ItemArgs → List ItemRow
unfolding new_line
new_lines id [] = []
new_lines id (a ∷ args) = new_line id a ∷ new_lines id args

unfoldable pub all_ok : List ItemArgs → List (Result (Unit {0}))
all_ok [] = []
all_ok (a ∷ args) = ok tt ∷ all_ok args

fill_lines : Text → List ItemArgs → Memory → Batch × Memory
unfolding new_lines all_ok
fill_lines id args m = (
  record { results = all_ok args; closed = ok tt },
  record m { lines = new_lines id args ++ m.lines },
)

unfoldable pub memory : PgDriver
unfolding reader insert_if find_key fill_lines
memory = record {
  State = Memory;
  Tx = Memory;
  begin = λ s. ok s;
  insert_order = λ u t st k m. insert_if (find_key k m.orders) u t st k m;
  send_batch = fill_lines;
  in_tx = reader;
  on_pool = reader;
  commit = λ tx s. (ok tt, tx);
  rollback = λ tx s. (err (base tx_closed), s);
}

pub text_eq_of_length : (s t : Text) → length s < length t → text_eq s t ≡ false
text_eq_of_length s t h = elim (Bool-cases (text_eq s t)) [
  | inl same ↦ absurd (omega (arith, ap length ((text_eq_iff s t).0 same)))
  | inr other ↦ other
]

pub find_id-long :
    (id : Text) (rows : List OrderRow)
    → length (order_ids rows) < length id
    → find_id id rows ≡ none
unfolding find_id order_ids
find_id-long id [] h = refl
find_id-long id (row ∷ rows) h =
    rw (text_eq_of_length row.id id (omega (arith, length-append row.id (order_ids rows))))
      (find_id-long id rows (omega (arith, length-append row.id (order_ids rows))))

lines_of-long :
    (id : Text) (rows : List ItemRow) → length (line_ids rows) < length id → lines_of id rows ≡ []
unfolding lines_of line_ids
lines_of-long id [] h = refl
lines_of-long id (row ∷ rows) h =
    rw
      (text_eq_of_length row.order_id id
        (omega (arith, length-append row.order_id (line_ids rows))))
      (lines_of-long id rows (omega (arith, length-append row.order_id (line_ids rows))))

map-ok-injective : (xs ys : List ItemRow) → map {B = Result ItemRow} ok xs ≡ map ok ys → ys ≡ xs
map-ok-injective [] [] h = refl
map-ok-injective [] (y ∷ ys) h = cc
map-ok-injective (x ∷ xs) [] h = cc
map-ok-injective (x ∷ xs) (y ∷ ys) h =
    let rest : map {B = Result ItemRow} ok xs ≡ map ok ys = cc in
    let first : x ≡ y = cc in cc (map-ok-injective xs ys rest, first)
