-- ===== src/Repo/Interleaving/Serial.antt =====
-- The effects of settled calls one behind the other: each has an outcome of `Repo.Creating`.
use checkout_saga.Common.{◌≡◌, ℕ, Bool, List, [], ◌∷◌, none, some, subst, sym, ap, ◌∙◌}
use checkout_saga.Common.Text.{Text}
use checkout_saga.GoError.{Result}
use checkout_saga.Order.{Order}
use checkout_saga.Repo.Driver.{OrderRow}
use checkout_saga.Repo.Postgres.{Tables, find_key}
use checkout_saga.Repo.Keys.{find_key-cons}
use checkout_saga.Repo.Creating.{IsCreated, Outcome, created, replayed, failed, unknown}
use checkout_saga.Repo.Idempotency.{Holds}
use checkout_saga.Repo.Replays.{keeps-Holds}

-- The calls of a log, the latest first, run one at a time from tables `t0`: they lead to the tables of
-- the index, and each has an outcome that its result tells.
pub data Serial (orders : ℕ → Order) (t0 : Tables)
    : List (ℕ × Result (Order × Bool)) → Tables → Type 0 where
  nothing : Serial orders t0 [] t0
  call :
      {log : List (ℕ × Result (Order × Bool))} {t t' : Tables} (i : ℕ) (r : Result (Order × Bool))
      → Serial orders t0 log t
      → Outcome (orders i) t t' r
      → Serial orders t0 ((i, r) ∷ log) t'

-- Rows and orders of the tables stay as they are.
pub record Extends (t t' : Tables) : Type 0 where
  pub key :
      (key : Text) (row : OrderRow)
      → find_key key t.orders ≡ some row
      → find_key key t'.orders ≡ some row
  pub holds : (key : Text) (o : Order) → Holds t key o → Holds t' key o

pub Extends-same : (t t' : Tables) → t' ≡ t → Extends t t'
Extends-same t t' same = record {
  key = λ key row found. subst (λ x. find_key key x.orders ≡ some row) (sym same) found;
  holds = λ key o h. subst (λ x. Holds x key o) (sym same) h;
}

created-find_key :
    (order o : Order) (t t' : Tables)
    → IsCreated order t t' o
    → (key : Text) (row : OrderRow) → find_key key t.orders ≡ some row
    → find_key key t'.orders ≡ some row
created-find_key order o t t' c key row found =
    ap (find_key key) c.added
    ∙ find_key-cons key c.row t.orders row
        (subst (λ k. find_key k t.orders ≡ none) (sym c.key_lem) c.new_key) found

pub Outcome-Extends :
    (order : Order) (t t' : Tables) (r : Result (Order × Bool))
    → Outcome order t t' r
    → Extends t t'
Outcome-Extends order t t' r (created o e c) = record {
  key = created-find_key order o t t' c;
  holds = λ key x. keeps-Holds order t t' r key x (created o e c);
}
Outcome-Extends order t t' r (replayed o row e found stored same) = Extends-same t t' same
Outcome-Extends order t t' r (failed e0 e same) = Extends-same t t' same
Outcome-Extends order t t' r (unknown e0 o e c) = record {
  key = created-find_key order o t t' c;
  holds = λ key x. keeps-Holds order t t' r key x (unknown e0 o e c);
}
