-- ===== src/Repo/Interleaving/Shared.antt =====
-- A server for several transactions in memory: the laws of `Interleaving.Server` can be met. It keeps
-- what the transactions wrote as a list of writes, the latest first; a statement never fails. The pool
-- has `spare` + 1 connections.
pub mod Holder
pub mod Laws
pub mod Schedule
pub mod Pool
use mathlib.Core.List.{Perm}
use mathlib.Core.List.Perm
use native.Mathlib.Decide.{ℕ_discrete}
use checkout_saga.Common.{
  Bool, true, false, ltb, length, ℕ, ◌<◌, ◌≡◌, ◌≢◌, refl, sym, ap, ◌∙◌, subst, List, [], ◌∷◌, ◌++◌,
  Option, none, some, map, length-append, arith, if◌then◌else◌, Bool-cases, inl, inr,
}
use checkout_saga.Common.Family.{update, update-cases}
use checkout_saga.Common.Text.{Text, text_eq, text_eq_iff}
use checkout_saga.GoError.{Error, base, no_rows, is_error, Result, ok, err}
use checkout_saga.Repo.Driver.{OrderRow, ItemRow, ItemArgs}
use checkout_saga.Repo.Postgres.{Tables, find_key, find_id, row_args}
use checkout_saga.Repo.Memory.{
  new_row, new_lines, all_ok, order_ids, reader_of, find_id-long, text_eq_of_length,
}
use checkout_saga.Repo.Memory.Laws.{reader_of-Reads, length-all_ok}
use checkout_saga.Repo.Interleaving.Server.{
  PgServer, Own, View, merged, writes, commits, IsFresh, IsServer,
}

pub record Shared : Type 0 where
  pub tables : Tables
  pub written : List (ℕ × Option Own)
  pub connections : List ℕ
  pub spare : ℕ

-- What each transaction has written last.
abbrev owns : List (ℕ × Option Own) → ℕ → Option Own
owns [] = λ i. none
owns ((j, o) ∷ written) = update (owns written) j o

abbrev pub shared_view : Shared → View
shared_view s = record { tables = s.tables; own = owns s.written }

pub own_ids : List (ℕ × Option Own) → Text
own_ids [] = []
own_ids ((j, none) ∷ written) = own_ids written
own_ids ((j, some w) ∷ written) = w.row.id ++ own_ids written

fresh_id : Shared → Text
unfolding own_ids order_ids
fresh_id s = b'x' ∷ (order_ids s.tables.orders ++ own_ids s.written)

abbrev has_key : Text → Option Own → Option Own
has_key key none = none
has_key key (some w) = if text_eq w.row.idempotency_key key then some w else none

abbrev or_else : Option Own → Option Own → Option Own
or_else none rest = rest
or_else (some w) rest = some w

-- Another transaction that has written the key.
pub holder : ℕ → Text → (ℕ → Option Own) → List (ℕ × Option Own) → Option Own
holder i key own [] = none
holder i key own ((j, o) ∷ written) =
    let rest = holder i key own written in
    elim (ℕ_discrete i j) [ yes _ ↦ rest | no _ ↦ or_else (has_key key (own j)) rest ]

insert_into :
    Option OrderRow
    → Option Own
    → ℕ
    → (user_id total_text status key : Text) → Shared
    → Option (Result Text × Shared)
unfolding fresh_id new_row
insert_into (some row) other i u t st k s = some (err (base no_rows), s)
insert_into none (some w) i u t st k s = none
insert_into none none i u t st k s = some (
  ok (fresh_id s),
  record s {
    written = (i, some (record { row = new_row (fresh_id s) u t st k; lines = [] })) ∷ s.written;
  },
)

fill : Option Own → ℕ → Text → List ItemArgs → Shared → Shared
unfolding new_lines
fill none i id args s = s
fill (some w) i id args s = record s {
  written = (i, some (record w { lines = new_lines id args })) ∷ s.written;
}

-- Who holds a connection.
abbrev pub holds : List ℕ → ℕ → Bool
holds [] = λ i. false
holds (i ∷ connections) = update (holds connections) i true

remove : ℕ → List ℕ → List ℕ
remove i [] = []
remove i (j ∷ connections) =
    let rest = remove i connections in elim (ℕ_discrete i j) [ yes _ ↦ rest | no _ ↦ j ∷ rest ]

-- Begin, by whether every connection is taken.
abbrev begin_if : Bool → ℕ → Shared → Option (Result (Unit {0}) × Shared)
begin_if true i s = none
begin_if false i s = some (ok tt, record s { connections = i ∷ s.connections })

unfoldable pub shared : PgServer
unfolding remove insert_into holder fill find_key all_ok reader_of
shared = record {
  Server = Shared;
  begin = λ i s. begin_if (ltb s.spare (length s.connections)) i s;
  insert_order = λ i u t st k s.
      insert_into (find_key k s.tables.orders) (holder i k (owns s.written) s.written) i u t st k s;
  send_batch = λ i id args s.
      (record { results = all_ok args; closed = ok tt }, fill (owns s.written i) i id args s);
  in_tx = λ i s. reader_of (merged s.tables (owns s.written i));
  commit = λ i s. (
    ok tt,
    record s {
      tables = merged s.tables (owns s.written i);
      written = (i, none) ∷ s.written;
      connections = remove i s.connections;
    },
  );
  rollback = λ i s.
      (ok tt, record s { written = (i, none) ∷ s.written; connections = remove i s.connections });
}
