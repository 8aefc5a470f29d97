-- ===== src/Postgres/Connect.antt =====
-- connectWithRetry (pkg/postgres/postgres.go) against a description of its rounds.
use checkout_saga.Common.{
  ℕ, zero, suc, ◌+◌, ◌<◌, ◌≤◌, ◌≡◌, refl, sym, subst, Bool-cases, inl, inr, ◌⊎◌, Option, none, some,
  arith,
}
use checkout_saga.Common.Int.{ℤ, pos, negsuc, ◌≤ℤ◌, IsInt64, pos_part, eq_ℤ, wrap64, ◌+ℤ◌, ◌*ℤ◌}
use checkout_saga.GoError.{Error, Result, ok, err}
use checkout_saga.Postgres.{
  Postgres, try_connect, after_attempt, wake, retry, connect_with_retry, all_failed, cancelled,
}
use checkout_saga.Postgres.Pgxpool.{PoolConfig, PoolDriver}

result-cases {ℓ κ} :
    {A : Type ℓ} {B : Type κ} (x : Result A × B)
    → ((a : A) × (b : B) × (x ≡ (ok a, b))) ⊎ ((e : Error) × (b : B) × (x ≡ (err e, b)))
result-cases (ok a, b) = inl (a, b, refl)
result-cases (err e, b) = inr (e, b, refl)

option-cases {ℓ κ} :
    {A : Type ℓ} {B : Type κ} (x : Option A × B)
    → ((b : B) × (x ≡ (none, b))) ⊎ ((a : A) × (b : B) × (x ≡ (some a, b)))
option-cases (none, b) = inl (b, refl)
option-cases (some a, b) = inr (a, b, refl)

module _ {d : PoolDriver} (p : Postgres d) (cfg : PoolConfig d.Parsed) where
  open d use {World, Pool}

  -- The world behind the warning about the failed round `n`, counted from 0.
  abbrev pub warned : (n : ℕ) (backoff : ℤ) → Error → World → World
  warned n backoff e w =
      d.warn p.logger
        (record {
          attempt = pos (suc n);
          max_attempts = p.conn_attempts;
          next_backoff = backoff;
          error = e;
        })
        w

  -- `Tried w n b w'`: from `w`, `n` rounds failed and each wait behind them ended with the timer; `b`
  -- is the next backoff.
  pub data Tried (w : World) : ℕ → ℤ → World → Type 0 where
    start : Tried w 0 p.retry_backoff w
    again :
        {n : ℕ} {b : ℤ} {w1 w2 w3 : World} (e : Error)
        → Tried w n b w1
        → try_connect d p cfg w1 ≡ (err e, w2)
        → d.wait b (warned n b e w2) ≡ (none, w3)
        → Tried w (suc n) (wrap64 (b *ℤ pos 2)) w3

  -- How connectWithRetry can end.
  pub data Connection (w : World) : Result Pool × World → Type 0 where
    succeeded :
        {n : ℕ} {b : ℤ} {w1 w2 : World} {pool : Pool}
        → n < pos_part p.conn_attempts
        → Tried w n b w1
        → try_connect d p cfg w1 ≡ (ok pool, w2)
        → Connection w (ok pool, w2)
    exhausted :
        {n : ℕ} {b : ℤ} {w1 w2 : World} {e : Error}
        → suc n ≡ pos_part p.conn_attempts
        → Tried w n b w1
        → try_connect d p cfg w1 ≡ (err e, w2)
        → Connection w (err (all_failed d p.conn_attempts (some e)), warned n b e w2)
    interrupted :
        {n : ℕ} {b : ℤ} {w1 w2 w3 : World} {e c : Error}
        → suc n < pos_part p.conn_attempts
        → Tried w n b w1
        → try_connect d p cfg w1 ≡ (err e, w2)
        → d.wait b (warned n b e w2) ≡ (some c, w3)
        → Connection w (err (cancelled d c), w3)
    no_round : p.conn_attempts ≤ℤ pos 0 → Connection w (err (all_failed d p.conn_attempts none), w)

  -- One round, with the rounds behind it as a hypothesis.
  round-Connection :
      (w : World) (n : ℕ) (b : ℤ) (rest : Error → World → Result Pool × World) (w1 : World)
      → IsInt64 p.conn_attempts
      → suc n ≤ pos_part p.conn_attempts
      → Tried w n b w1
      → ((e : Error) (w3 : World)
          → suc n < pos_part p.conn_attempts
          → Tried w (suc n) (wrap64 (b *ℤ pos 2)) w3
          → Connection w (rest e w3))
      → Connection w (after_attempt d p (pos (suc n)) b rest (try_connect d p cfg w1))
  round-Connection w n b rest w1 small rounds tried next =
      elim (result-cases (try_connect d p cfg w1)) [
        | inl (pool, w2, t) ↦
            subst (λ x. Connection w (after_attempt d p (pos (suc n)) b rest x)) (sym t)
              (succeeded rounds tried t)
        | inr (e, w2, t) ↦
            subst (λ x. Connection w (after_attempt d p (pos (suc n)) b rest x)) (sym t)
              (elim (Bool-cases (eq_ℤ (pos (suc n)) p.conn_attempts)) [
                | inl same ↦ rw (after_attempt, same) (exhausted (ground arith) tried t)
                | inr more ↦
                    let fewer : suc n < pos_part p.conn_attempts = ground arith in
                    rw (after_attempt, more)
                      (elim (option-cases (d.wait b (warned n b e w2))) [
                        | inl (w3, t') ↦
                            subst (λ x. Connection w (wake d (rest e) x)) (sym t')
                              (next e w3 fewer (again e tried t t'))
                        | inr (c, w3, t') ↦
                            subst (λ x. Connection w (wake d (rest e) x)) (sym t')
                              (interrupted fewer tried t t')
                      ])
              ])
      ]

  -- attempt++ does not wrap while rounds are left.
  pub next_attempt :
      (n : ℕ)
      → suc n < pos_part p.conn_attempts
      → IsInt64 p.conn_attempts
      → wrap64 (pos (suc n) +ℤ pos 1) ≡ pos (suc (suc n))
  unfolding ◌+ℤ◌ wrap64
  next_attempt n fewer small = ground arith

  retry-Connection :
      (w : World) (left n : ℕ) (b : ℤ) (last : Option Error) (w1 : World)
      → IsInt64 p.conn_attempts
      → suc (n + left) ≡ pos_part p.conn_attempts
      → Tried w n b w1
      → Connection w (retry d p cfg (suc left) (pos (suc n)) b last w1)
  unfolding retry
  retry-Connection w zero n b last w1 small rounds tried =
      round-Connection w n b _ w1 small (ground arith) tried (λ e w3 fewer _. ground arith)
  retry-Connection w (suc left) n b last w1 small rounds tried =
      round-Connection w n b _ w1 small (ground arith) tried (λ e w3 fewer tried'.
        subst (λ a. Connection w (retry d p cfg (suc left) a (wrap64 (b *ℤ pos 2)) (some e) w3))
          (sym (next_attempt n fewer small))
          (retry-Connection w left (suc n) (wrap64 (b *ℤ pos 2)) (some e) w3 small (ground arith)
            tried'))

  -- For a connAttempts that is an int64, connectWithRetry ends with the pool of the first
  -- successful round, after connAttempts failed rounds with the last error, with the context's
  -- error in a wait, or at once where connAttempts is not positive.
  pub connect_with_retry-Connection :
      (w : World) → IsInt64 p.conn_attempts → Connection w (connect_with_retry d p cfg w)
  unfolding connect_with_retry retry
  connect_with_retry-Connection w small = go p.conn_attempts refl
    where
      go :
          (a : ℤ)
          → p.conn_attempts ≡ a
          → Connection w (retry d p cfg (pos_part a) (pos 1) p.retry_backoff none w)
      go (pos zero) h = no_round (ground arith)
      go (negsuc a) h = no_round (ground arith)
      go (pos (suc left)) h =
          retry-Connection w left 0 p.retry_backoff none w small (ground arith) start
