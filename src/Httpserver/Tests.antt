-- ===== src/Httpserver/Tests.antt =====
-- A server of pkg/httpserver whose port is taken.
use checkout_saga.Common.{ℕ, ◌≡◌, refl, ◌<◌, none, some, true, arith}
use checkout_saga.GoError.{foreign, err, is_error, prefixed}
use checkout_saga.Httpserver.{on_served}
use checkout_saga.Httpserver.Life.{State, fresh, built, started, fatal, Reach-on_served}

abbrev serving : State
serving = record { running = 1; notify = fresh }

Reach-on_served_example :
    (◌≡◌ {A = ℕ} 1 1
      → on_served (err (foreign "in use")) fresh
        ≡ some (record { buffer = fatal (err (foreign "in use")); closed = true }))
    × (1 < 1 → on_served (err (foreign "in use")) fresh ≡ none)
Reach-on_served_example =
    Reach-on_served {n = 1} {s = serving} (err (foreign "in use")) (started built) (omega arith)

-- The error reaches Notify, and the channel is closed.
taken :
    on_served (err (foreign "in use")) fresh
    ≡ some
        (record { buffer = some (prefixed "httpserver.Start: " (foreign "in use")); closed = true })
unfolding on_served is_error
taken = refl
