-- ===== src/Repo/Idempotency.antt =====
-- Sequences of Create calls, failed ones included: a key names one order for ever.
use checkout_saga.Common.{some-injective, ◌≡◌, refl, sym, ◌∙◌, subst, List, [], ◌∷◌, some, arith}
use checkout_saga.Common.Text.{Text}
use checkout_saga.GoError.{ok-injective}
use checkout_saga.Order.{Order, OrderItem}
use checkout_saga.Repo.{order_of_row}
use checkout_saga.Repo.Driver.{OrderRow, ItemRow}
use checkout_saga.Repo.Postgres.{Tables, find_key}
use checkout_saga.Repo.Loading.{IsLine, AreLines, IsStored}

IsLine-unique : (row : ItemRow) (i j : OrderItem) → IsLine row i → IsLine row j → i ≡ j
IsLine-unique row i j p q =
    let price : i.price ≡ j.price = ok-injective (sym p.price ∙ q.price) in
    ground (arith, p.id, q.id)

AreLines-unique :
    (rows : List ItemRow) (xs ys : List OrderItem) → AreLines rows xs → AreLines rows ys → xs ≡ ys
AreLines-unique [] [] [] p q = refl
AreLines-unique [] [] (y ∷ ys) p q = absurd q
AreLines-unique [] (x ∷ xs) ys p q = absurd p
AreLines-unique (row ∷ rows) [] ys p q = absurd p
AreLines-unique (row ∷ rows) (x ∷ xs) [] p q = absurd q
AreLines-unique (row ∷ rows) (x ∷ xs) (y ∷ ys) (p, ps) (q, qs) =
    cc (IsLine-unique row x y p q, AreLines-unique rows xs ys ps qs)

-- A row and its lines stand for one order.
pub IsStored-unique :
    (row : OrderRow) (rows : List ItemRow) (o o' : Order)
    → IsStored row rows o
    → IsStored row rows o'
    → o ≡ o'
IsStored-unique row rows o o' p q =
    let total : o.total_amount ≡ o'.total_amount = ok-injective (sym p.total ∙ q.total) in
    let items : o.items ≡ o'.items = AreLines-unique rows o.items o'.items p.lines q.lines in
    p.fields ∙ (λ i. record (order_of_row row (total i)) { items = items i }) ∙ sym q.fields

-- The order of a key in the tables.
pub record Holds (t : Tables) (key : Text) (o : Order) : Type 0 where
  pub row : OrderRow
  pub found : find_key key t.orders ≡ some row
  pub stored : IsStored row (t.items row.id) o

pub Holds-unique :
    (t : Tables) (key : Text) (o o' : Order) → Holds t key o → Holds t key o' → o ≡ o'
Holds-unique t key o o' p q =
    let same : p.row ≡ q.row = some-injective (sym p.found ∙ q.found) in
    IsStored-unique q.row (t.items q.row.id) o o'
      (subst (λ r. IsStored r (t.items r.id) o) same p.stored) q.stored
