-- ===== src/Httpserver.antt =====
-- pkg/httpserver: the server's wrapper (server.go) and its options (options.go). The channel of Notify
-- has room for one error. net/http's server is known by what its calls return.
pub mod Life
mod Tests
use checkout_saga.Common.{
  ℕ, suc, ◌*◌, ◌^◌, ◌≡◌, Bool, true, false, List, [], ◌∷◌, Option, none, some, if◌then◌else◌,
}
use checkout_saga.Common.Int.{ℤ, pos}
use checkout_saga.Common.Text.{Text, codes}
use checkout_saga.GoError.{Error, is_error, server_closed, prefixed, Result, ok, err, annotate}

-- A channel of errors with a buffer of one; `buffer` is what waits to be received.
pub record Channel : Type 0 where
  pub buffer : Option Error
  pub closed : Bool

-- Server, with the fields of its http.Server that it sets
pub record Server (H : Type 0) : Type 0 where
  pub addr : Text
  pub handler : H
  pub read_header_timeout : ℤ
  pub read_timeout : ℤ
  pub write_timeout : ℤ
  pub shutdown_timeout : ℤ
  pub notify : Channel

abbrev pub seconds : ℕ → ℤ
seconds n = pos (n * 10 ^ 9)

-- httpserver.Option
abbrev pub ServerOption : Type 0 → Type 0
ServerOption H = Server H → Server H

module _ {H : Type 0} where
  -- The options of options.go; net.JoinHostPort of no host puts a colon before the port.
  abbrev pub port : Text → ServerOption H
  port p s = record s { addr = b':' ∷ p }

  abbrev pub read_timeout : ℤ → ServerOption H
  read_timeout t s = record s { read_timeout = t }

  abbrev pub write_timeout : ℤ → ServerOption H
  write_timeout t s = record s { write_timeout = t }

  abbrev pub shutdown_timeout : ℤ → ServerOption H
  shutdown_timeout t s = record s { shutdown_timeout = t }

  unfoldable pub apply_server_options : List (ServerOption H) → Server H → Server H
  apply_server_options [] s = s
  apply_server_options (opt ∷ opts) s = apply_server_options opts (opt s)

  -- New
  unfoldable pub new_server : H → List (ServerOption H) → Server H
  unfolding codes
  new_server handler opts = apply_server_options opts (record {
    addr = codes ":8080";
    handler = handler;
    read_header_timeout = seconds 5;
    read_timeout = seconds 10;
    write_timeout = seconds 10;
    shutdown_timeout = seconds 10;
    notify = record { buffer = none; closed = false };
  })

-- A send on an open channel, where it does not block.
abbrev pub send_open : Error → Option Error → Option Channel
send_open e none = some (record { buffer = some e; closed = false })
send_open e (some _) = none

-- A send, where it neither blocks nor panics: the channel is not closed.
abbrev pub send : Error → Channel → Option Channel
send e c = if c.closed then none else send_open e c.buffer

-- close, where it does not panic
abbrev pub close_channel : Channel → Option Channel
close_channel c = if c.closed then none else some (record c { closed = true })

abbrev pub then_close : Option Channel → Option Channel
then_close none = none
then_close (some c) = close_channel c

-- The goroutine of Start behind ListenAndServe; `none` is a goroutine that blocks or panics.
unfoldable pub on_served : Result (Unit {0}) → Channel → Option Channel
on_served (ok _) c = close_channel c
on_served (err e) c =
    if is_error server_closed e
    then close_channel c
    else then_close (send (prefixed "httpserver.Start: " e) c)

-- Shutdown, from what http.Server.Shutdown returns within the timeout
abbrev pub shutdown : Result (Unit {0}) → Result (Unit {0})
shutdown stopped = annotate "httpserver.Shutdown: " stopped
