-- ===== src/Repo/Interleaving/Pool.antt =====
-- Which calls of OrderRepo.Create hold a connection of the pool: only those between Begin and the
-- deferred Rollback.
use checkout_saga.Common.{
  ◌≡◌, ◌≢◌, refl, sym, ap, ◌∙◌, subst, ℕ, Bool, true, false, Option, none, some, inl, inr,
  Bool-cases, map,
}
use native.Mathlib.Decide.{ℕ_discrete}
use checkout_saga.Common.Family.{update, update_same, update_other}
use checkout_saga.Common.Text.{Text}
use checkout_saga.GoError.{Result, ok, err, is_error, no_rows}
use checkout_saga.Money.{money_string}
use checkout_saga.Order.{Order, status_text}
use checkout_saga.Repo.Interleaving.{
  Pc, idle, begun, inserted, filled, conflicted, found, loaded, closing, returned, after_begin,
  after_begin_tx, after_insert, after_batch, after_row, after_items, after_commit,
  after_insert_order, advance, System, pick, Reach, start, later,
}
use checkout_saga.Repo.{item_args}
use checkout_saga.Repo.Interleaving.Server.{PgServer, IsPool}

-- A call between Begin and the deferred Rollback.
abbrev pub IsActive : Pc → Type 0
IsActive idle = ⊥
IsActive (returned _) = ⊥
IsActive _ = Unit

after_insert-IsActive : (r : Result Text) → IsActive (after_insert r)
unfolding after_insert
after_insert-IsActive (ok id) = tt
after_insert-IsActive (err e) = elim (Bool-cases (is_error no_rows e)) [
  | inl conflict ↦ rw conflict tt
  | inr other ↦ rw other tt
]

after_batch-IsActive : (id : Text) (r : Result (Unit {0})) → IsActive (after_batch id r)
unfolding after_batch
after_batch-IsActive id (ok u) = tt
after_batch-IsActive id (err e) = tt

after_row-IsActive : (b : Bool) (r : Result Order) → IsActive (after_row b r)
unfolding after_row
after_row-IsActive b (ok x) = tt
after_row-IsActive b (err e) = tt

after_items-IsActive : (b : Bool) (r : Result Order) → IsActive (after_items b r)
unfolding after_items
after_items-IsActive b (ok x) = tt
after_items-IsActive b (err e) = tt

after_commit-IsActive :
    (b : Bool) (x : Order) (r : Result (Unit {0})) → IsActive (after_commit b x r)
unfolding after_commit
after_commit-IsActive b x r = tt

module _ (srv : PgServer) (pool : IsPool srv) where
  open srv use {Server}
  open pool use {connected}

  -- A step of call `i`: the others keep their connections, and it keeps its own only while active.
  record Holds (i : ℕ) (s s' : Server) (p' : Pc) : Type 0 where
    others : (j : ℕ) → i ≢ j → connected s' j ≡ connected s j
    active : connected s' i ≡ true → IsActive p'

  HoldsTo : ℕ → Server → Option (Pc × Server) → Type 0
  HoldsTo i s none = Unit
  HoldsTo i s (some (p', s')) = Holds i s s' p'

  Holds-same :
      (i : ℕ) (s s' : Server) (p' : Pc) → connected s' ≡ connected s → IsActive p' → Holds i s s' p'
  Holds-same i s s' p' e a = record { others = λ j ne. ap (λ f. f j) e; active = λ _. a }

  Holds-update :
      (i : ℕ) (s s' : Server) (p' : Pc) (b : Bool)
      → connected s' ≡ update (connected s) i b
      → (b ≡ true → IsActive p')
      → Holds i s s' p'
  Holds-update i s s' p' b e a = record {
    others = λ j ne. ap (λ f. f j) e ∙ update_other (connected s) i b j ne;
    active = λ h. a (sym (ap (λ f. f i) e ∙ update_same (connected s) i b) ∙ h);
  }

  advance-Holds :
      (i : ℕ) (order : Order) (p : Pc) (s : Server)
      → (connected s i ≡ true → IsActive p)
      → HoldsTo i s (advance srv i order p s)
  unfolding advance HoldsTo after_begin_tx after_insert_order after_begin
  advance-Holds i order idle s before = go (srv.begin i s) refl
    where
      go :
          (o : Option (Result (Unit {0}) × Server))
          → srv.begin i s ≡ o
          → HoldsTo i s (after_begin_tx srv o)
      go none e = tt
      go (some (ok tt, s')) e = Holds-update i s s' begun true (pool.begin_takes i s s' e) (λ _. tt)
      go (some (err x, s')) e =
          let same = pool.begin_fails i s s' x e in
          record {
            others = λ j ne. ap (λ f. f j) same;
            active = λ h. absurd (before (sym (ap (λ f. f i) same) ∙ h));
          }
  advance-Holds i order begun s before =
      go
        (srv.insert_order i order.user_id (money_string order.total_amount)
          (status_text order.status) order.idempotency_key s)
        refl
    where
      go :
          (o : Option (Result Text × Server))
          → srv.insert_order i order.user_id
              (money_string order.total_amount)
              (status_text order.status)
              order.idempotency_key
              s
            ≡ o
          → HoldsTo i s (after_insert_order srv o)
      go none e = tt
      go (some (r, s')) e =
          Holds-same i s s' _ (pool.insert_keeps i _ _ _ _ s s' r e) (after_insert-IsActive r)
  advance-Holds i order (inserted id) s before =
      Holds-same i s _ _ (pool.batch_keeps i id (map item_args order.items) s)
        (after_batch-IsActive id _)
  advance-Holds i order (filled id) s before = Holds-same i s s _ refl (after_row-IsActive true _)
  advance-Holds i order conflicted s before = Holds-same i s s _ refl (after_row-IsActive false _)
  advance-Holds i order (found b x) s before = Holds-same i s s _ refl (after_items-IsActive b _)
  advance-Holds i order (loaded b x) s before =
      Holds-update i s _ _ false (pool.commit_frees i s) (λ _. after_commit-IsActive b x _)
  advance-Holds i order (closing r) s before =
      Holds-update i s _ (returned r) false (pool.rollback_frees i s) (λ h. cc)
  advance-Holds i order (returned r) s before = tt

  -- No call holds a connection.
  abbrev pub IsFree : Server → Type 0
  IsFree s = (j : ℕ) → connected s j ≡ false

  -- Only an active call holds a connection.
  pub Reach-IsActive :
      (orders : ℕ → Order) (n : ℕ) (server : Server) (k : ℕ) (s : System srv)
      → IsFree server
      → Reach srv orders n server k s
      → (j : ℕ) → connected s.server j ≡ true
      → IsActive (s.pc j)
  unfolding HoldsTo
  Reach-IsActive orders n server k s free start j h = cc (free j)
  Reach-IsActive orders n server k t free (later {k = m} {s} r (pick i {p} {server = next} lt e)) j
        h =
      let before = Reach-IsActive orders n server m s free r in
      let held : Holds i s.server next p =
        subst (HoldsTo i s.server) e (advance-Holds i (orders i) (s.pc i) s.server (before i)) in
      elim (ℕ_discrete i j) [
        | yes here ↦
            subst (λ q. IsActive (update s.pc i p q)) here
              (subst IsActive (sym (update_same s.pc i p))
                (held.active (subst (λ q. connected next q ≡ true) (sym here) h)))
        | no other ↦
            subst IsActive (sym (update_other s.pc i p j other))
              (before j (sym (held.others j other) ∙ h))
      ]
