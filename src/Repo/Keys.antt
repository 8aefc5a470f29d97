-- ===== src/Repo/Keys.antt =====
-- The two lookups in the table of orders, its unique columns, and what a new row leaves alone.
use checkout_saga.Common.{◌≡◌, ◌≢◌, List, [], ◌∷◌, none, some, arith, Bool-cases, inl, inr}
use checkout_saga.Common.Text.{Text, text_eq, text_eq_iff}
use checkout_saga.Repo.Driver.{OrderRow}
use checkout_saga.Repo.Postgres.{find_key, find_id}

-- No key and no id stands twice.
abbrev pub AreUnique : List OrderRow → Type 0
AreUnique [] = Unit
AreUnique (row ∷ rows) =
    (find_key row.idempotency_key rows ≡ none) × (find_id row.id rows ≡ none) × AreUnique rows

pub find_id-id :
    (id : Text) (rows : List OrderRow) (row : OrderRow) → find_id id rows ≡ some row → row.id ≡ id
unfolding find_id
find_id-id id [] row h = cc
find_id-id id (r ∷ rows) row h = ground (arith, text_eq_iff r.id id, find_id-id id rows row)

pub find_key-cons_self :
    (key : Text) (row : OrderRow) (rows : List OrderRow)
    → row.idempotency_key ≡ key
    → find_key key (row ∷ rows) ≡ some row
unfolding find_key
find_key-cons_self key row rows h = ground (arith, text_eq_iff row.idempotency_key key)

-- A row that is found stays found behind a row with a new key.
pub find_key-cons :
    (key : Text) (new : OrderRow) (rows : List OrderRow) (row : OrderRow)
    → find_key new.idempotency_key rows ≡ none
    → find_key key rows ≡ some row
    → find_key key (new ∷ rows) ≡ some row
unfolding find_key
find_key-cons key new rows row fresh found = ground (arith, text_eq_iff new.idempotency_key key)

pub find_id-cons :
    (id : Text) (new : OrderRow) (rows : List OrderRow) (row : OrderRow)
    → find_id new.id rows ≡ none
    → find_id id rows ≡ some row
    → find_id id (new ∷ rows) ≡ some row
unfolding find_id
find_id-cons id new rows row fresh found = ground (arith, text_eq_iff new.id id)

-- A row that is found by its key has an id that is taken.
pub find_id_of_find_key :
    (key : Text) (rows : List OrderRow) (row : OrderRow)
    → find_key key rows ≡ some row
    → find_id row.id rows ≢ none
unfolding find_key find_id
find_id_of_find_key key [] row h = cc
find_id_of_find_key key (r ∷ rows) row h = ground (
  arith,
  text_eq_iff r.id row.id,
  text_eq_iff r.idempotency_key key,
  find_id_of_find_key key rows row,
)

-- Where ids and keys are unique, the row of a key is the row of its id.
pub find_id-find_key :
    (key : Text) (rows : List OrderRow) (row : OrderRow)
    → AreUnique rows
    → find_key key rows ≡ some row
    → find_id row.id rows ≡ some row
unfolding find_key find_id
find_id-find_key key [] row u h = cc
find_id-find_key key (r ∷ rows) row (nk, ni, u) h =
    elim (Bool-cases (text_eq r.idempotency_key key)) [
      | inl here ↦ ground (arith, text_eq_iff r.id row.id)
      | inr later ↦
          let found : find_key key rows ≡ some row = ground arith in
          find_id-cons row.id r rows row ni (find_id-find_key key rows row u found)
    ]
