-- ===== src/Postgres/Termination.antt =====
-- The loop of connectWithRetry (pkg/postgres/postgres.go) as it is written, with its condition tested
-- on int64 values before each round. It runs on fuel; a result `none` is one for which it was short.
use checkout_saga.Common.{
  ℕ, zero, suc, ◌+◌, ◌<◌, ◌≡◌, refl, sym, subst, true, false, Bool-cases, inl, inr, Option, none,
  some, arith,
}
use checkout_saga.Common.Int.{ℤ, pos, IsInt64, pos_part, eq_ℤ, leb_ℤ, wrap64, ◌+ℤ◌, ◌*ℤ◌}
use checkout_saga.GoError.{Error, Result, ok, err}
use checkout_saga.Postgres.{
  Postgres, try_connect, after_attempt, wake, retry, connect_with_retry, all_failed, cancelled,
}
use checkout_saga.Postgres.Pgxpool.{PoolConfig, PoolDriver}
use checkout_saga.Postgres.Connect.{next_attempt}

-- How a round goes: the function returns, or the loop goes on with the round's error.
pub data Turn (d : PoolDriver) : Type 0 where
  stop : Result d.Pool × d.World → Turn d
  go_on : Error → d.World → Turn d

module _ {d : PoolDriver} (p : Postgres d) (cfg : PoolConfig d.Parsed) where
  open d use {World, Pool}

  -- The select at the end of a round.
  abbrev pub select_turn : Error → Option Error × World → Turn d
  select_turn e (none, w) = go_on e w
  select_turn e (some c, w) = stop (err (cancelled d c), w)

  -- A round behind its tryConnect.
  abbrev pub turn : (attempt backoff : ℤ) → Result Pool × World → Turn d
  turn attempt backoff (ok pool, w) = stop (ok pool, w)
  turn attempt backoff (err e, w) =
      let w1 =
        d.warn p.logger
          (record {
            attempt = attempt;
            max_attempts = p.conn_attempts;
            next_backoff = backoff;
            error = e;
          })
          w in
      elim (eq_ℤ attempt p.conn_attempts) [
        | true ↦ stop (err (all_failed d p.conn_attempts (some e)), w1)
        | false ↦ select_turn e (d.wait backoff w1)
      ]

  abbrev pub resume :
      (Error → World → Option (Result Pool × World)) → Turn d → Option (Result Pool × World)
  resume rest (stop end) = some end
  resume rest (go_on e w) = rest e w

  -- for attempt := 1; attempt <= connAttempts; attempt++, with `none` where the fuel does not suffice
  unfoldable pub loop :
      ℕ → (attempt backoff : ℤ) → Option Error → World → Option (Result Pool × World)
  loop zero attempt backoff last w = none
  loop (suc fuel) attempt backoff last w = elim (leb_ℤ attempt p.conn_attempts) [
    | false ↦ some (err (all_failed d p.conn_attempts last), w)
    | true ↦
        resume (λ e. loop fuel (wrap64 (attempt +ℤ pos 1)) (wrap64 (backoff *ℤ pos 2)) (some e))
          (turn attempt backoff (try_connect d p cfg w))
  ]

  -- A round of the loop and one of `retry` agree where what follows them does.
  turn-after_attempt :
      (attempt backoff : ℤ) (more : Error → World → Option (Result Pool × World))
      (rest : Error → World → Result Pool × World)
      → (eq_ℤ attempt p.conn_attempts ≡ false
          → (e : Error) (w : World) → more e w ≡ some (rest e w))
      → (made : Result Pool × World)
      → resume more (turn attempt backoff made) ≡ some (after_attempt d p attempt backoff rest made)
  turn-after_attempt attempt backoff more rest agree (ok pool, w) = refl
  turn-after_attempt attempt backoff more rest agree (err e, w) =
      elim (Bool-cases (eq_ℤ attempt p.conn_attempts)) [
        | inl last ↦ rw (resume, turn, after_attempt, last) refl
        | inr other ↦ rw (resume, turn, after_attempt, other) (selected e _ (agree other))
      ]
    where
      selected :
          (e : Error) (woken : Option Error × World)
          → ((e : Error) (w : World) → more e w ≡ some (rest e w))
          → resume more (select_turn e woken) ≡ some (wake d (rest e) woken)
      selected e (none, w) agree = agree e w
      selected e (some c, w) agree = refl

  loop-retry :
      (left n fuel : ℕ) (b : ℤ) (last : Option Error) (w : World)
      → IsInt64 p.conn_attempts
      → n + left ≡ pos_part p.conn_attempts
      → left < fuel
      → loop fuel (pos (suc n)) b last w ≡ some (retry d p cfg left (pos (suc n)) b last w)
  unfolding loop retry
  loop-retry left n zero b last w small rounds enough = absurd (omega (arith, enough))
  loop-retry zero n (suc fuel) b last w small rounds enough =
      let over : leb_ℤ (pos (suc n)) p.conn_attempts ≡ false = ground arith in rw (loop, over) refl
  loop-retry (suc left) n (suc fuel) b last w small rounds enough =
      let within : leb_ℤ (pos (suc n)) p.conn_attempts ≡ true = ground arith in
      rw (loop, within)
        (turn-after_attempt (pos (suc n)) b _ _
          (λ other e w1.
            let fewer : suc n < pos_part p.conn_attempts = ground arith in
            subst
              (λ a.
                loop fuel a (wrap64 (b *ℤ pos 2)) (some e) w1
                ≡ some (retry d p cfg left a (wrap64 (b *ℤ pos 2)) (some e) w1))
              (sym (next_attempt p cfg n fewer small))
              (loop-retry left (suc n) fuel (wrap64 (b *ℤ pos 2)) (some e) w1 small
                (omega (arith, rounds)) (omega (arith, enough))))
          (try_connect d p cfg w))

  -- For a connAttempts that is an int64, the loop ends: one more test of its condition than the rounds
  -- that connAttempts allows is enough, and it returns what `connect_with_retry` does.
  pub loop-connect_with_retry :
      (fuel : ℕ) (w : World)
      → IsInt64 p.conn_attempts
      → pos_part p.conn_attempts < fuel
      → loop fuel (pos 1) p.retry_backoff none w ≡ some (connect_with_retry d p cfg w)
  unfolding connect_with_retry
  loop-connect_with_retry fuel w small enough =
      loop-retry (pos_part p.conn_attempts) 0 fuel p.retry_backoff none w small (omega arith) enough
