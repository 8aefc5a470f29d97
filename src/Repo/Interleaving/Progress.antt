-- ===== src/Repo/Interleaving/Progress.antt =====
-- Calls of OrderRepo.Create come to an end: how many steps they make.
use checkout_saga.Common.{
  subst, ℕ, ◌+◌, ◌*◌, ◌≤◌, ◌<◌, Bool, true, false, Option, none, some, arith,
}
use checkout_saga.Common.Family.{sum_below, sum_below-update, sum_below-constant}
use checkout_saga.Common.Text.{Text}
use checkout_saga.GoError.{Result, ok, err}
use checkout_saga.Money.{money_string}
use checkout_saga.Order.{Order, status_text}
use checkout_saga.Repo.Interleaving.{
  Pc, idle, begun, inserted, filled, conflicted, found, loaded, closing, returned, after_begin,
  after_insert, after_batch, after_row, after_items, after_commit, after_begin_tx,
  after_insert_order, advance, System, pick, Reach, start, later,
}
use checkout_saga.Repo.Interleaving.Server.{PgServer}

-- The steps that a call has before it at most.
abbrev pub steps_left : Pc → ℕ
steps_left idle = 7
steps_left begun = 6
steps_left (inserted _) = 5
steps_left (filled _) = 4
steps_left conflicted = 4
steps_left (found _ _) = 3
steps_left (loaded _ _) = 2
steps_left (closing _) = 1
steps_left (returned _) = 0

after_begin-steps_left : (r : Result (Unit {0})) → steps_left (after_begin r) < 7
unfolding after_begin
after_begin-steps_left (ok u) = omega arith
after_begin-steps_left (err e) = omega arith

after_insert-steps_left : (r : Result Text) → steps_left (after_insert r) < 6
unfolding after_insert
after_insert-steps_left (ok id) = omega arith
after_insert-steps_left (err e) = ground arith

after_batch-steps_left : (id : Text) (r : Result (Unit {0})) → steps_left (after_batch id r) < 5
unfolding after_batch
after_batch-steps_left id (ok u) = omega arith
after_batch-steps_left id (err e) = omega arith

after_row-steps_left : (b : Bool) (r : Result Order) → steps_left (after_row b r) < 4
unfolding after_row
after_row-steps_left b (ok x) = omega arith
after_row-steps_left b (err e) = omega arith

after_items-steps_left : (b : Bool) (r : Result Order) → steps_left (after_items b r) < 3
unfolding after_items
after_items-steps_left b (ok x) = omega arith
after_items-steps_left b (err e) = omega arith

after_commit-steps_left :
    (b : Bool) (x : Order) (r : Result (Unit {0})) → steps_left (after_commit b x r) < 2
unfolding after_commit
after_commit-steps_left b x r = omega arith

module _ (srv : PgServer) where
  open srv use {Server}

  -- Every step brings its call nearer to the end.
  abbrev IsNearer : Pc → Option (Pc × Server) → Type 0
  IsNearer p none = Unit
  IsNearer p (some (p', s')) = steps_left p' < steps_left p

  advance-IsNearer :
      (i : ℕ) (order : Order) (p : Pc) (s : Server) → IsNearer p (advance srv i order p s)
  unfolding advance after_begin_tx after_insert_order
  advance-IsNearer i order idle s = go (srv.begin i s)
    where
      go : (o : Option (Result (Unit {0}) × Server)) → IsNearer idle (after_begin_tx srv o)
      go none = tt
      go (some (r, s')) = after_begin-steps_left r
  advance-IsNearer i order begun s = go (
      srv.insert_order i order.user_id (money_string order.total_amount) (status_text order.status)
        order.idempotency_key s)
    where
      go : (o : Option (Result Text × Server)) → IsNearer begun (after_insert_order srv o)
      go none = tt
      go (some (r, s')) = after_insert-steps_left r
  advance-IsNearer i order (inserted id) s = after_batch-steps_left id _
  advance-IsNearer i order (filled id) s = after_row-steps_left true _
  advance-IsNearer i order conflicted s = after_row-steps_left false _
  advance-IsNearer i order (found b x) s = after_items-steps_left b _
  advance-IsNearer i order (loaded b x) s = after_commit-steps_left b x _
  advance-IsNearer i order (closing r) s = omega arith
  advance-IsNearer i order (returned r) s = tt

  -- However the statements of `n` calls interleave, there are at most seven steps for each call.
  pub Reach-le :
      (orders : ℕ → Order) (n : ℕ) (server : Server) (k : ℕ) (s : System srv)
      → Reach srv orders n server k s
      → k ≤ 7 * n
  Reach-le orders n server k s r = omega (arith, go k s r)
    where
      go :
          (k : ℕ) (s : System srv)
          → Reach srv orders n server k s
          → k + sum_below steps_left n s.pc ≤ 7 * n
      go k s start = omega (arith, sum_below-constant steps_left n idle)
      go k t (later {k = m} {s} r (pick i {p} {server = next} lt e)) =
          let nearer : steps_left p < steps_left (s.pc i) =
            subst (IsNearer (s.pc i)) e (advance-IsNearer i (orders i) (s.pc i) s.server) in
          omega (arith, go m s r, sum_below-update steps_left n s.pc i p lt nearer)
