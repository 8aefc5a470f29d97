-- ===== src/Repo/Interleaving/Shared/Schedule.antt =====
-- Reachable states of two calls on the server in memory, by an order of their steps.
use native.Mathlib.Decide.{dec_lt}
use checkout_saga.Common.{◌≡◌, refl, ℕ, suc, ◌<◌, List, [], ◌∷◌, Option, none, some}
use checkout_saga.Order.{Order}
use checkout_saga.Repo.Interleaving.{Pc, advance, System, pick, Reach, start, later}
use checkout_saga.Repo.Interleaving.Shared.{shared}
use checkout_saga.Repo.Interleaving.Shared.Laws.{no_orders}

module _ (orders : ℕ → Order) where
  -- A state that some steps have led to.
  pub record Run : Type 0 where
    pub steps : ℕ
    pub last : System shared
    pub reach : Reach shared orders 2 no_orders steps last

  abbrev pub begin_run : Run
  begin_run = record { steps = 0; last = _; reach = start }

  taken :
      (run : Run) (i : ℕ) (o : Option (Pc × shared.Server))
      → i < 2
      → advance shared i (orders i) (run.last.pc i) run.last.server ≡ o
      → Run
  taken run i none lt e = run
  taken run i (some (p, s)) lt e = record {
    steps = suc run.steps;
    last = _;
    reach = later run.reach (pick i lt e);
  }

  -- The next step of call `i`, if it can make one.
  unfoldable pub turn : Run → ℕ → Run
  unfolding taken dec_lt
  turn run i = elim (dec_lt i 2) [ no _ ↦ run | yes lt ↦ taken run i _ lt refl ]

  abbrev pub turns : Run → List ℕ → Run
  turns run [] = run
  turns run (i ∷ is) = turns (turn run i) is
