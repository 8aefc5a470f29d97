-- ===== src/Postgres/Lifecycle.antt =====
-- The life of a pool in pkg/postgres/postgres.go: which pools New leaves open, what Close does, and
-- the configuration that New hands to pgxpool.
use checkout_saga.Common.{
  ◌≡◌, refl, sym, ap, ◌∙◌, subst, ◌∷◌, ℕ, Option, none, some, arith, Bool-cases, inl, inr, List,
}
use checkout_saga.Common.Int.{ℤ, ◌≤ℤ◌, IsInt64, ltb_ℤ}
use checkout_saga.Common.Text.{Text}
use checkout_saga.GoError.{ok-injective, Error, Result, ok, err, annotate}
use checkout_saga.Postgres.{
  Postgres, try_connect, connect_with_retry, keep_or_close, verify, with_pool, open_pool, new,
  PoolOption, apply_options, defaults, clamp_min_conns, pool_config, close,
}
use checkout_saga.Postgres.Connect.{
  warned, Tried, start, again, Connection, succeeded, exhausted, interrupted, no_round,
  connect_with_retry-Connection,
}
use checkout_saga.Postgres.Pgxpool.{PoolConfig, PoolDriver, IsPoolDriver}

-- What is open behind a call that started at `w`: the pool it returns, and nothing more than before
-- where it fails.
abbrev LeavesPool : {d : PoolDriver} → IsPoolDriver d → d.World → Result d.Pool × d.World → Type 0
LeavesPool laws w (ok pool, w') = laws.opened w' ≡ pool ∷ laws.opened w
LeavesPool laws w (err e, w') = laws.opened w' ≡ laws.opened w

module _ {d : PoolDriver} (laws : IsPoolDriver d) (p : Postgres d) (cfg : PoolConfig d.Parsed) where
  open laws use {opened}

  keep_or_close-LeavesPool :
      (pool : d.Pool) (w w1 : d.World)
      → opened w1 ≡ pool ∷ opened w
      → (pinged : Result (Unit {0}) × d.World) → opened pinged.1 ≡ opened w1
      → LeavesPool laws w (keep_or_close d pool pinged)
  keep_or_close-LeavesPool pool w w1 h (err e, w2) kept =
      laws.close_newest pool w2 (opened w) (kept ∙ h)
  keep_or_close-LeavesPool pool w w1 h (ok _, w2) kept = kept ∙ h

  try_connect-LeavesPool : (w : d.World) → LeavesPool laws w (try_connect d p cfg w)
  unfolding try_connect
  try_connect-LeavesPool w = go (d.new_with_config cfg w) refl
    where
      go :
          (made : Result d.Pool × d.World)
          → d.new_with_config cfg w ≡ made
          → LeavesPool laws w (verify d p made)
      go (err e, w1) h = laws.new_err cfg w w1 e h
      go (ok pool, w1) h =
          keep_or_close-LeavesPool pool w w1 (laws.new_ok cfg w w1 pool h)
            (d.ping (some p.conn_timeout) pool w1) (laws.ping_keeps (some p.conn_timeout) pool w1)

  failed-opened :
      (w w1 : d.World) (e : Error) → try_connect d p cfg w ≡ (err e, w1) → opened w1 ≡ opened w
  failed-opened w w1 e h = subst (LeavesPool laws w) h (try_connect-LeavesPool w)

  warned-opened :
      (n : ℕ) (b : ℤ) (e : Error) (w w1 : d.World)
      → try_connect d p cfg w ≡ (err e, w1)
      → opened (warned p cfg n b e w1) ≡ opened w
  warned-opened n b e w w1 h = laws.warn_keeps p.logger _ w1 ∙ failed-opened w w1 e h

  waited-opened :
      (n : ℕ) (b : ℤ) (e : Error) (w w1 w2 : d.World) (woken : Option Error)
      → try_connect d p cfg w ≡ (err e, w1)
      → d.wait b (warned p cfg n b e w1) ≡ (woken, w2)
      → opened w2 ≡ opened w
  waited-opened n b e w w1 w2 woken h k =
      ap (λ x. opened x.1) (sym k) ∙ laws.wait_keeps b _ ∙ warned-opened n b e w w1 h

  Tried-opened : {w w' : d.World} {n : ℕ} {b : ℤ} → Tried p cfg w n b w' → opened w' ≡ opened w
  Tried-opened start = refl
  Tried-opened (again {n = n} {b = b} {w1 = w1} {w2 = w2} {w3 = w3} e tried t k) =
      waited-opened n b e w1 w2 w3 none t k ∙ Tried-opened tried

  Connection-LeavesPool :
      {w : d.World} {end : Result d.Pool × d.World} → Connection p cfg w end → LeavesPool laws w end
  Connection-LeavesPool (succeeded {w1 = w1} {pool = pool} _ tried t) =
      subst (LeavesPool laws w1) t (try_connect-LeavesPool w1)
      ∙ ap (λ l. pool ∷ l) (Tried-opened tried)
  Connection-LeavesPool (exhausted {n = n} {b = b} {w1 = w1} {w2 = w2} {e = e} _ tried t) =
      warned-opened n b e w1 w2 t ∙ Tried-opened tried
  Connection-LeavesPool
        (interrupted {n = n} {b = b} {w1 = w1} {w2 = w2} {w3 = w3} {e = e} {c = c} _ tried t k) =
      waited-opened n b e w1 w2 w3 (some c) t k ∙ Tried-opened tried
  Connection-LeavesPool (no_round _) = refl

  pub connect_with_retry-LeavesPool :
      (w : d.World) → IsInt64 p.conn_attempts → LeavesPool laws w (connect_with_retry d p cfg w)
  connect_with_retry-LeavesPool w small =
      Connection-LeavesPool (connect_with_retry-Connection p cfg w small)

-- What New leaves open, and what Close leaves open behind it.
abbrev pub NewLeaves :
    {d : PoolDriver} → IsPoolDriver d → d.World → Result (Postgres d) × d.World → Type 0
NewLeaves {d = d} laws w (ok p, w') =
    ((pool : d.Pool) × (p.pool ≡ some pool) × (laws.opened w' ≡ pool ∷ laws.opened w))
    × (laws.opened (close d p w') ≡ laws.opened w)
NewLeaves laws w (err e, w') = laws.opened w' ≡ laws.opened w

with_pool-NewLeaves :
    {d : PoolDriver} (laws : IsPoolDriver d) (p : Postgres d) (w : d.World)
    (end : Result d.Pool × d.World)
    → LeavesPool laws w end
    → NewLeaves laws w (with_pool d p end)
unfolding close
with_pool-NewLeaves laws p w (err e, w') h = h
with_pool-NewLeaves laws p w (ok pool, w') h =
    ((pool, refl, h), laws.close_newest pool w' (laws.opened w) h)

-- The number of attempts that New's options ask for fits in Go's int.
abbrev pub AttemptsFit : {d : PoolDriver} → List (PoolOption d) → Type 0
AttemptsFit {d = d} opts = IsInt64 (apply_options d opts (defaults d)).conn_attempts

clamp-attempts :
    {d : PoolDriver} (p : Postgres d) → (clamp_min_conns d p).conn_attempts ≡ p.conn_attempts
clamp-attempts {d = d} p = elim (Bool-cases (ltb_ℤ p.max_conns p.min_conns)) [
  | inl h ↦ rw h refl
  | inr h ↦ rw h refl
]

-- For options whose ConnAttempts is an int64, New leaves open exactly the pools that were open and the
-- one it returns, which Close then closes; where New fails, nothing stays open that was not.
pub new-NewLeaves :
    {d : PoolDriver} (laws : IsPoolDriver d) (url : Text) (opts : List (PoolOption d)) (w : d.World)
    → AttemptsFit opts
    → NewLeaves laws w (new d url opts w)
unfolding new
new-NewLeaves {d = d} laws url opts w small = go (annotate _ (d.parse_config url))
  where
    go :
        (parsed : Result d.Parsed)
        → NewLeaves laws w
            (open_pool d (clamp_min_conns d (apply_options d opts (defaults d))) parsed w)
    go (err e) = refl
    go (ok parsed) =
        let p = clamp_min_conns d (apply_options d opts (defaults d)) in
        with_pool-NewLeaves laws p w (connect_with_retry d p (pool_config d parsed p) w) (
          connect_with_retry-LeavesPool laws p (pool_config d parsed p) w
            (subst IsInt64 (sym (clamp-attempts (apply_options d opts (defaults d)))) small))

-- The connection bounds of a pool that was asked for with the bounds of `asked`.
pub record Bounded {d : PoolDriver} (asked p : Postgres d) : Type 0 where
  pub max_conns : p.max_conns ≡ asked.max_conns
  pub ordered : p.min_conns ≤ℤ p.max_conns
  pub lowered : p.min_conns ≤ℤ asked.min_conns
  pub kept : asked.min_conns ≤ℤ asked.max_conns → p.min_conns ≡ asked.min_conns

clamp-Bounded : {d : PoolDriver} (p : Postgres d) → Bounded p (clamp_min_conns d p)
clamp-Bounded {d = d} p = elim (Bool-cases (ltb_ℤ p.max_conns p.min_conns)) [
  | inl h ↦ rw h (record {
    max_conns = refl;
    ordered = ground arith;
    lowered = ground arith;
    kept = λ k. ground arith;
  })
  | inr h ↦ rw h (record {
    max_conns = refl;
    ordered = ground arith;
    lowered = ground arith;
    kept = λ k. refl;
  })
]

with_pool-Bounded :
    {d : PoolDriver} (asked p q : Postgres d) (end : Result d.Pool × d.World)
    → Bounded asked p
    → (with_pool d p end).0 ≡ ok q
    → Bounded asked q
with_pool-Bounded asked p q (err e, w) b h = cc
with_pool-Bounded asked p q (ok pool, w) b h =
    let same : record p { pool = some pool } ≡ q = ok-injective h in
    subst (Bounded asked) same
      (record { max_conns = b.max_conns; ordered = b.ordered; lowered = b.lowered; kept = b.kept })

open_pool-Bounded :
    {d : PoolDriver} (asked q : Postgres d) (parsed : Result d.Parsed) (w : d.World)
    → (open_pool d (clamp_min_conns d asked) parsed w).0 ≡ ok q
    → Bounded asked q
open_pool-Bounded asked q (err e) w h = cc
open_pool-Bounded {d = d} asked q (ok parsed) w h =
    let p = clamp_min_conns d asked in
    with_pool-Bounded asked p q (connect_with_retry d p (pool_config d parsed p) w)
      (clamp-Bounded asked) h

-- A pool that New returns has the MaxConns of the options and MinConns at most that, and the MinConns
-- of the options where they are not above MaxConns.
pub new-Bounded :
    {d : PoolDriver} (url : Text) (opts : List (PoolOption d)) (w : d.World) (p : Postgres d)
    → (new d url opts w).0 ≡ ok p
    → Bounded (apply_options d opts (defaults d)) p
unfolding new
new-Bounded {d = d} url opts w p h =
    open_pool-Bounded (apply_options d opts (defaults d)) p (annotate _ (d.parse_config url)) w h
