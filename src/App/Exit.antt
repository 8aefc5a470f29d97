-- ===== src/App/Exit.antt =====
-- The exit status of cmd/order/main.go.
use checkout_saga.Common.{[], ◌≡◌, refl, ap, ◌∙◌, sym, List, [], ◌∷◌, arith}
use checkout_saga.Common.Text.{Text, codes}
use checkout_saga.GoError.{Result, ok, err}
use checkout_saga.Logger.{info}
use checkout_saga.Logger.Backend.{Zap}
use checkout_saga.Postgres.Pgxpool.{PoolDriver, IsPoolDriver}
use checkout_saga.Httpserver.{Server, shutdown}
use checkout_saga.Config.{Config}
use checkout_saga.Config.Loading.{Loader}
use checkout_saga.App.{Outcome, exit_status, drained, woken, wait_for_shutdown, run, order_main}
use checkout_saga.App.Process.{Woken, signalled, notified, Wiring, Host, IsHost}
use checkout_saga.App.Endings.{Ends, failed, left_early, crashed_early, served, run-Ends}

-- A signal came while the service waited with its pool open, and the server was drained behind it.
pub record Drained {d : PoolDriver} {z : Zap d.World} (laws : IsPoolDriver d) (h : Host d z)
    (before : List d.Pool) : Type 0 where
  pub server : Server (Wiring d z)
  pub pool : d.Pool
  pub waiting : d.World
  pub woken : d.World
  pub draining : d.World
  pub held : laws.opened waiting ≡ pool ∷ before
  pub signal : h.select server waiting ≡ (signalled, woken)
  pub still : laws.opened draining ≡ pool ∷ before
  pub drained : (h.shutdown server draining).0 ≡ ok tt

module _ {d : PoolDriver} {z : Zap d.World} (laws : IsPoolDriver d) (h : Host d z)
    (keeps : IsHost laws h) where
  open laws use {opened}

  drained-ok :
      (log : z.Logger) (stopped : Result (Unit {0})) (w : d.World)
      → (drained h log (shutdown stopped, w)).0 ≡ ok tt
      → stopped ≡ ok tt
  drained-ok log (ok tt) w k = refl
  drained-ok log (err e) w k = cc

  waited-Drained :
      (log : z.Logger) (server : Server (Wiring d z)) (pool : d.Pool) (before : List d.Pool)
      (w : d.World)
      → opened w ≡ pool ∷ before
      → (wait_for_shutdown h log server w).0 ≡ ok tt
      → Drained laws h before
  unfolding wait_for_shutdown
  waited-Drained log server pool before w held k = go (h.select server w) refl k
    where
      go :
          (x : Woken × d.World)
          → h.select server w ≡ x
          → (woken h log server x).0 ≡ ok tt
          → Drained laws h before
      go (notified e, w1) s k1 = cc
      go (signalled, w1) s k1 = record {
        server = server;
        pool = pool;
        waiting = w;
        woken = w1;
        draining = info z log (codes "shutdown signal received, draining http server") [] w1;
        held = held;
        signal = s;
        still =
            keeps.write_keeps log _ _ _ w1
            ∙ ap (λ x. opened x.1) (sym s)
            ∙ keeps.select_keeps server w
            ∙ held;
        drained = drained-ok log _ _ k1;
      }

  exit-Drained :
      (before : List d.Pool) (end : Outcome × d.World)
      → Ends laws h before end
      → (exit_status h end).0 ≡ 0
      → Drained laws h before
  exit-Drained before _ (failed e w k) s = absurd (omega (arith, s))
  exit-Drained before _ (left_early w k) s = absurd (omega (arith, s))
  exit-Drained before _ (crashed_early text w k) s = absurd (omega (arith, s))
  exit-Drained before _ (served pg pool log server (err e) w1 w2 w3 p held waited still t k) s =
      absurd (omega (arith, s))
  exit-Drained before _ (served pg pool log server (ok tt) w1 w2 w3 p held waited still t k) s =
      waited-Drained log server pool before w1 held (ap (λ x. x.0) waited)

  -- Where no call of the host touches the pools, main ends with status 0 only if a signal ended the
  -- wait of a run whose pool was open then, and the HTTP server was drained with the pool still open.
  pub order_main-Drained :
      (l : Loader Config) (version commit : Text) (w : d.World)
      → (order_main h l version commit w).0 ≡ 0
      → Drained laws h (opened w)
  unfolding order_main
  order_main-Drained l version commit w s =
      exit-Drained (opened w) (run h l version commit w) (run-Ends laws h keeps l version commit w)
        s
