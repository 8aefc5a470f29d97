-- ===== src/Repo/Interleaving/Completion.antt =====
-- Calls of OrderRepo.Create that run at the same time: each interleaving comes to an end, at which all
-- of them have returned.
use checkout_saga.Common.{
  ◌≡◌, sym, subst, ℕ, zero, suc, ◌+◌, ◌*◌, ◌≤◌, ◌<◌, Bool, inl, inr, arith, ◌⊎◌,
}
use native.Mathlib.Decide.{ℕ_discrete}
use checkout_saga.GoError.{Result}
use checkout_saga.Order.{Order}
use checkout_saga.Repo.Interleaving.{Pc, returned, System, Step, pick, Reach, later}
use checkout_saga.Repo.Interleaving.Server.{PgServer, IsServer, IsPool}
use checkout_saga.Repo.Interleaving.Pool.{IsFree}
use checkout_saga.Repo.Interleaving.Safety.{IsQuiet}
use checkout_saga.Repo.Interleaving.Progress.{Reach-le}
use checkout_saga.Repo.Interleaving.Deadlock.{CanStep, no_deadlock}

abbrev pub IsReturned : Pc → Type 0
IsReturned p = (r : Result (Order × Bool)) × (p ≡ returned r)

module _ (srv : PgServer) (orders : ℕ → Order) (n : ℕ) where
  open srv use {Server}

  -- The calls go on from one state to another.
  pub data Steps : System srv → System srv → Type 0 where
    stay : {s : System srv} → Steps s s
    onward : {s t u : System srv} → Step srv orders n s t → Steps t u → Steps s u

  -- A way on from a state, to one where all calls have returned.
  pub record Completed (server : Server) (s : System srv) : Type 0 where
    pub steps : ℕ
    pub last : System srv
    pub reach : Reach srv orders n server steps last
    pub onwards : Steps s last
    pub all_returned : (i : ℕ) → i < n → IsReturned (last.pc i)

  module _ (is : IsServer srv) (pool : IsPool srv) (server : Server) where
    CanStep-Step :
        (s : System srv) (i : ℕ)
        → i < n
        → CanStep srv is pool orders n s i
        → (t : System srv) × Step srv orders n s t
    CanStep-Step s i lt ((p, next), e) = (_, pick i lt e)

    -- As long as a call has not returned, one of the calls can make a step.
    Reach-Step :
        (k : ℕ) (s : System srv) (i : ℕ)
        → IsQuiet srv is server
        → IsFree srv pool server
        → Reach srv orders n server k s
        → i < n
        → IsReturned (s.pc i) ⊎ ((t : System srv) × Step srv orders n s t)
    Reach-Step k s i quiet free r lt =
        elim (no_deadlock srv is pool orders n server k s i quiet free r) [
          | inl done ↦ inl done
          | inr (inl step) ↦ inr (CanStep-Step s i lt step)
          | inr (inr (inl w)) ↦ inr (CanStep-Step s w.holder w.below w.goes_on)
          | inr (inr (inr w)) ↦ inr (elim w.goes_on [
            | inl step ↦ CanStep-Step s w.holder w.below step
            | inr w2 ↦ CanStep-Step s w2.holder w2.below w2.goes_on
          ])
        ]

    all_or_Step :
        (k : ℕ) (s : System srv)
        → IsQuiet srv is server
        → IsFree srv pool server
        → Reach srv orders n server k s
        → (m : ℕ) → m ≤ n
        → ((i : ℕ) → i < m → IsReturned (s.pc i)) ⊎ ((t : System srv) × Step srv orders n s t)
    all_or_Step k s quiet free r zero le = inl (λ i lt. absurd (omega (arith, lt)))
    all_or_Step k s quiet free r (suc m) le =
        elim (Reach-Step k s m quiet free r (omega (arith, le))) [
          | inr step ↦ inr step
          | inl done ↦ elim (all_or_Step k s quiet free r m (omega (arith, le))) [
            | inr step ↦ inr step
            | inl before ↦ inl (λ i lt. elim (ℕ_discrete i m) [
              | yes e ↦ subst (λ j. IsReturned (s.pc j)) (sym e) done
              | no ne ↦ before i (omega (arith, lt, ne))
            ])
          ]
        ]

    Completed-here :
        (k : ℕ) (s : System srv)
        → Reach srv orders n server k s
        → ((i : ℕ) → i < n → IsReturned (s.pc i))
        → Completed server s
    Completed-here k s r done = record {
      steps = k;
      last = s;
      reach = r;
      onwards = stay;
      all_returned = done;
    }

    Completed-onward :
        {s t : System srv} → Step srv orders n s t → Completed server t → Completed server s
    Completed-onward step rest = record {
      steps = rest.steps;
      last = rest.last;
      reach = rest.reach;
      onwards = onward step rest.onwards;
      all_returned = rest.all_returned;
    }

    -- Fuel for the steps that are left is enough.
    complete :
        (fuel k : ℕ) (s : System srv)
        → IsQuiet srv is server
        → IsFree srv pool server
        → Reach srv orders n server k s
        → 7 * n ≤ k + fuel
        → Completed server s
    complete zero k s quiet free r short = elim (all_or_Step k s quiet free r n (omega arith)) [
      | inl done ↦ Completed-here k s r done
      | inr (t, step) ↦
          absurd (omega (arith, short, Reach-le srv orders n server (suc k) t (later r step)))
    ]
    complete (suc fuel) k s quiet free r enough =
        elim (all_or_Step k s quiet free r n (omega arith)) [
          | inl done ↦ Completed-here k s r done
          | inr (t, step) ↦
              Completed-onward step
                (complete fuel (suc k) t quiet free (later r step) (omega (arith, enough)))
        ]

    -- From a state of the server in which no transaction has written anything and no call holds a
    -- connection, the statements of `n` calls interleave in 7 * n steps at most, and from every
    -- state on the way the calls can go on until all of them have returned.
    pub Reach-Completed :
        (k : ℕ) (s : System srv)
        → IsQuiet srv is server
        → IsFree srv pool server
        → Reach srv orders n server k s
        → (k ≤ 7 * n) × Completed server s
    Reach-Completed k s quiet free r =
        (Reach-le srv orders n server k s r, complete (7 * n) k s quiet free r (omega arith))
