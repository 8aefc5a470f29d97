-- ===== src/Postgres/Backoff.antt =====
-- The exponential backoff of connectWithRetry (pkg/postgres/postgres.go), in int64.
use checkout_saga.Common.{ℕ, zero, suc, ◌*◌, ◌^◌, ◌≡◌, sym, ap, ◌∙◌, arith}
use checkout_saga.Common.Int.{ℤ, pos, negsuc, IsInt64, neg_ℕ, wrap64, wrap64-eq_self, ◌*ℤ◌}
use checkout_saga.Postgres.{Postgres}
use checkout_saga.Postgres.Connect.{Tried, start, again}
use checkout_saga.Postgres.Pgxpool.{PoolConfig, PoolDriver}

wrap64-double : (z : ℤ) → wrap64 (wrap64 z *ℤ pos 2) ≡ wrap64 (z *ℤ pos 2)
unfolding wrap64 ◌*ℤ◌
wrap64-double (pos n) = ground arith
wrap64-double (negsuc n) = ground arith

mul-double : (b : ℤ) (k : ℕ) → (b *ℤ pos k) *ℤ pos 2 ≡ b *ℤ pos (2 * k)
unfolding ◌*ℤ◌
mul-double (pos n) k = ap pos (grind arith)
mul-double (negsuc n) k = go (suc n * k) (suc n * (2 * k)) (grind arith)
  where
    go : (x y : ℕ) → y ≡ x * 2 → neg_ℕ x *ℤ pos 2 ≡ neg_ℕ y
    go zero y h = ground arith
    go (suc x) y h = ground arith

mul-one : (b : ℤ) → b *ℤ pos 1 ≡ b
unfolding ◌*ℤ◌
mul-one (pos n) = ground arith
mul-one (negsuc n) = ground arith

module _ {d : PoolDriver} {p : Postgres d} {cfg : PoolConfig d.Parsed} {w : d.World} where
  -- For a RetryBackoff that is an int64, the wait behind the n-th failed round of connectWithRetry,
  -- counted from 0, is RetryBackoff times 2 ^ n as an int64.
  Tried-backoff :
      {n : ℕ} {b : ℤ} {w' : d.World}
      → IsInt64 p.retry_backoff
      → Tried p cfg w n b w'
      → b ≡ wrap64 (p.retry_backoff *ℤ pos (2 ^ n))
  Tried-backoff small start =
      sym (ap wrap64 (mul-one p.retry_backoff) ∙ wrap64-eq_self p.retry_backoff small)
  Tried-backoff small (again {n = n} {b = b} e tried _ _) =
      ap (λ x. wrap64 (x *ℤ pos 2)) (Tried-backoff small tried)
      ∙ wrap64-double (p.retry_backoff *ℤ pos (2 ^ n))
      ∙ ap wrap64 (mul-double p.retry_backoff (2 ^ n))
      ∙ ap (λ x. wrap64 (p.retry_backoff *ℤ pos x)) (sym (grind arith))
