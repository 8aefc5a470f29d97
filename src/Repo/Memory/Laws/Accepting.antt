-- ===== src/Repo/Memory/Laws/Accepting.antt =====
-- The in-memory driver accepts every order of a new key.
use checkout_saga.Common.{none, ◌≡◌, refl, List, [], ◌∷◌, map, All}
use checkout_saga.Common.Text.{Text}
use checkout_saga.GoError.{Result, ok}
use checkout_saga.Order.{Order}
use checkout_saga.Repo.{insert_row, item_args}
use checkout_saga.Repo.Driver.{ItemArgs}
use checkout_saga.Repo.Postgres.{find_key}
use checkout_saga.Repo.FirstCreate.{Accepts}
use checkout_saga.Repo.Memory.{
  new_id, tables, found_or_none, reader, insert_if, all_ok, fill_lines, memory,
}
use checkout_saga.Repo.Memory.Laws.{memory_lem, no_rows_yet}

all_ok-All : (args : List ItemArgs) → All (λ (r : Result (Unit {0})). r ≡ ok tt) (all_ok args)
unfolding all_ok
all_ok-All [] = tt
all_ok-All (a ∷ args) = (refl, all_ok-All args)

pub memory-Accepts : (order : Order) (m : memory.State) → Accepts memory memory_lem.0 order m
unfolding memory memory_lem tables insert_if fill_lines reader found_or_none insert_row
memory-Accepts order m = record {
  tx = m;
  begins = refl;
  inserts = λ fresh. (new_id m, rw fresh refl);
  fills = λ id after h. (all_ok-All (map item_args order.items), refl);
  finds = λ id after row h found. rw found refl;
  lists = λ id after h. refl;
  commits = λ id after h. refl;
}

pub fresh_key : (key : Text) → find_key key (memory_lem.0.committed no_rows_yet).orders ≡ none
unfolding memory_lem tables find_key
fresh_key key = refl
