-- ===== src/Repo/Interleaving/Deadlock.antt =====
-- Calls of OrderRepo.Create do not block each other for ever, neither on a key nor on the connections
-- of the pool.
use checkout_saga.Common.{
  ◌≡◌, ◌≢◌, refl, sym, ap, ◌∙◌, subst, ℕ, ◌≤◌, ◌<◌, Bool, true, Option, none, some, inl, inr, arith,
  ◌⊎◌,
}
use native.Mathlib.Decide.{dec_lt}
use checkout_saga.Common.Family.{update_other}
use checkout_saga.Common.Text.{Text}
use checkout_saga.GoError.{Result}
use checkout_saga.Money.{money_string}
use checkout_saga.Order.{Order, status_text}
use checkout_saga.Repo.Interleaving.{
  Pc, idle, begun, inserted, filled, conflicted, found, loaded, closing, returned, after_begin,
  after_begin_tx, after_insert, after_insert_order, advance, System, pick, Reach, start, later,
}
use checkout_saga.Repo.Interleaving.Server.{PgServer, Own, IsServer, IsPool}
use checkout_saga.Repo.Interleaving.Local.{Local}
use checkout_saga.Repo.Interleaving.Pool.{Reach-IsActive, IsActive, IsFree}
use checkout_saga.Repo.Interleaving.Safety.{IsQuiet, Reach-Inv}

module _ (srv : PgServer) where
  open srv use {Server}

  -- A call may wait before Begin and before the INSERT, and one that has returned makes no step.
  advance-cases :
      (i : ℕ) (order : Order) (p : Pc) (s : Server)
      → ((x : Pc × Server) × (advance srv i order p s ≡ some x))
        ⊎ ((r : Result (Order × Bool)) × (p ≡ returned r))
        ⊎ ((p ≡ idle) × (srv.begin i s ≡ none))
        ⊎ ((p ≡ begun)
            × (srv.insert_order i order.user_id
                  (money_string order.total_amount)
                  (status_text order.status)
                  order.idempotency_key
                  s
                ≡ none))
  unfolding advance after_begin_tx after_insert_order
  advance-cases i order idle s = go (srv.begin i s) refl
    where
      go :
          (o : Option (Result (Unit {0}) × Server))
          → srv.begin i s ≡ o
          → ((x : Pc × Server) × (after_begin_tx srv (srv.begin i s) ≡ some x))
            ⊎ ((r : Result (Order × Bool)) × (idle ≡ returned r))
            ⊎ ((idle ≡ idle) × (srv.begin i s ≡ none))
            ⊎ ((idle ≡ begun)
                × (srv.insert_order i order.user_id
                      (money_string order.total_amount)
                      (status_text order.status)
                      order.idempotency_key
                      s
                    ≡ none))
      go none e = inr (inr (inl (refl, e)))
      go (some (r, s')) e = inl ((after_begin r, s'), ap (after_begin_tx srv) e)
  advance-cases i order begun s =
      go
        (srv.insert_order i order.user_id (money_string order.total_amount)
          (status_text order.status) order.idempotency_key s)
        refl
    where
      inserting : Option (Result Text × Server)
      inserting =
          srv.insert_order i order.user_id (money_string order.total_amount)
            (status_text order.status) order.idempotency_key s

      go :
          (o : Option (Result Text × Server))
          → inserting ≡ o
          → ((x : Pc × Server) × (after_insert_order srv inserting ≡ some x))
            ⊎ ((r : Result (Order × Bool)) × (begun ≡ returned r))
            ⊎ ((begun ≡ idle) × (srv.begin i s ≡ none))
            ⊎ ((begun ≡ begun) × (inserting ≡ none))
      go none e = inr (inr (inr (refl, e)))
      go (some (r, s')) e = inl ((after_insert r, s'), ap (after_insert_order srv) e)
  advance-cases i order (inserted id) s = inl (_, refl)
  advance-cases i order (filled id) s = inl (_, refl)
  advance-cases i order conflicted s = inl (_, refl)
  advance-cases i order (found b x) s = inl (_, refl)
  advance-cases i order (loaded b x) s = inl (_, refl)
  advance-cases i order (closing r) s = inl (_, refl)
  advance-cases i order (returned r) s = inr (inl (r, refl))

  Reach-idle :
      (orders : ℕ → Order) (n : ℕ) (server : Server) (k : ℕ) (s : System srv)
      → Reach srv orders n server k s
      → (j : ℕ) → n ≤ j
      → s.pc j ≡ idle
  Reach-idle orders n server k s start j out = refl
  Reach-idle orders n server k t (later {k = m} {s} r (pick i {p} lt e)) j out =
      update_other s.pc i p j (λ h. omega (arith, h)) ∙ Reach-idle orders n server m s r j out

  module _ (is : IsServer srv) (pool : IsPool srv) (orders : ℕ → Order) (n : ℕ) where
    open is use {view}
    open pool use {connected}

    -- Call `i` can make its next step.
    abbrev pub CanStep : System srv → ℕ → Type 0
    CanStep s i = (x : Pc × Server) × (advance srv i (orders i) (s.pc i) s.server ≡ some x)

    -- Call `i` waits in its INSERT for another call that has written its key and can make a step.
    pub record WaitsForKey (s : System srv) (i : ℕ) : Type 0 where
      pub here : s.pc i ≡ begun
      pub holder : ℕ
      pub below : holder < n
      pub other : i ≢ holder
      pub own : Own
      pub written : (view s.server).own holder ≡ some own
      pub key : own.row.idempotency_key ≡ (orders i).idempotency_key
      pub goes_on : CanStep s holder

    -- Call `i` waits in Begin for another call that holds a connection; that one can make a step, or
    -- waits for one that can.
    pub record WaitsForConnection (s : System srv) (i : ℕ) : Type 0 where
      pub here : s.pc i ≡ idle
      pub holder : ℕ
      pub below : holder < n
      pub other : i ≢ holder
      pub held : connected s.server holder ≡ true
      pub goes_on : CanStep s holder ⊎ WaitsForKey s holder

    -- A transaction that has written something belongs to a call that can go on.
    writer-CanStep :
        (server : Server) (k : ℕ) (s : System srv) (j : ℕ) (w : Own)
        → IsQuiet srv is server
        → Reach srv orders n server k s
        → (view s.server).own j ≡ some w
        → (j < n) × CanStep s j
    writer-CanStep server k s j w quiet r e = elim (dec_lt j n) [
      | no out ↦
          let idles = Reach-idle orders n server k s r j (omega (arith, out)) in
          absurd (owns_nothing (sym (subst At idles local) ∙ e))
      | yes lt ↦ elim (advance-cases j (orders j) (s.pc j) s.server) [
        | inl step ↦ (lt, step)
        | inr (inl (x, done)) ↦ absurd (owns_nothing (sym (subst At done local).0 ∙ e))
        | inr (inr (inl (before, waits))) ↦ absurd (owns_nothing (sym (subst At before local) ∙ e))
        | inr (inr (inr (before, waits))) ↦ absurd (owns_nothing (sym (subst At before local) ∙ e))
      ]
    ]
      where
        At : Pc → Type 0
        At p = Local (orders j) (view s.server).tables ((view s.server).own j) p

        local : At (s.pc j)
        local = (Reach-Inv srv is orders n server k s quiet r).local j

        owns_nothing : ◌≢◌ {A = Option Own} none (some w)
        owns_nothing h = cc

    insert-WaitsForKey :
        (server : Server) (k : ℕ) (s : System srv) (i : ℕ)
        → IsQuiet srv is server
        → Reach srv orders n server k s
        → s.pc i ≡ begun
        → srv.insert_order i
            (orders i).user_id
            (money_string (orders i).total_amount)
            (status_text (orders i).status)
            (orders i).idempotency_key
            s.server
          ≡ none
        → WaitsForKey s i
    insert-WaitsForKey server k s i quiet r before waits =
        let (j, w, ne, e, same) = is.insert_waits i _ _ _ _ s.server waits in
        let (lt, step) = writer-CanStep server k s j w quiet r e in
        record {
          here = before;
          holder = j;
          below = lt;
          other = ne;
          own = w;
          written = e;
          key = same;
          goes_on = step;
        }

    begin-WaitsForConnection :
        (server : Server) (k : ℕ) (s : System srv) (i : ℕ)
        → IsQuiet srv is server
        → IsFree srv pool server
        → Reach srv orders n server k s
        → s.pc i ≡ idle
        → srv.begin i s.server ≡ none
        → WaitsForConnection s i
    begin-WaitsForConnection server k s i quiet free r before waits =
        let (j, held) = pool.begin_waits i s.server waits in
        let active = Reach-IsActive srv pool orders n server k s free r j held in
        record {
          here = before;
          holder = j;
          below = elim (dec_lt j n) [
            | yes lt ↦ lt
            | no out ↦
                absurd
                  (subst IsActive (Reach-idle orders n server k s r j (omega (arith, out))) active)
          ];
          other = λ e. subst IsActive (ap s.pc (sym e) ∙ before) active;
          held = held;
          goes_on = elim (advance-cases j (orders j) (s.pc j) s.server) [
            | inl step ↦ inl step
            | inr (inl (x, done)) ↦ absurd (subst IsActive done active)
            | inr (inr (inl (unbegun, _))) ↦ absurd (subst IsActive unbegun active)
            | inr (inr (inr (inserting, blocked))) ↦
                inr (insert-WaitsForKey server k s j quiet r inserting blocked)
          ];
        }

    -- No deadlock, on keys and on the connections of the pool: in every state that an interleaving
    -- leads to from one in which no transaction has written anything and no call holds a
    -- connection, a call has returned, or it can make its next step, or it waits in its INSERT for
    -- another call that has written its key and can make a step, or it waits in Begin for another
    -- call that holds a connection and can make a step or so waits in its INSERT.
    pub no_deadlock :
        (server : Server) (k : ℕ) (s : System srv) (i : ℕ)
        → IsQuiet srv is server
        → IsFree srv pool server
        → Reach srv orders n server k s
        → ((r : Result (Order × Bool)) × (s.pc i ≡ returned r))
          ⊎ CanStep s i
          ⊎ WaitsForKey s i
          ⊎ WaitsForConnection s i
    no_deadlock server k s i quiet free r = elim (advance-cases i (orders i) (s.pc i) s.server) [
      | inl step ↦ inr (inl step)
      | inr (inl done) ↦ inl done
      | inr (inr (inl (before, waits))) ↦
          inr (inr (inr (begin-WaitsForConnection server k s i quiet free r before waits)))
      | inr (inr (inr (before, waits))) ↦
          inr (inr (inl (insert-WaitsForKey server k s i quiet r before waits)))
    ]
