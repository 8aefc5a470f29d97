-- ===== src/Services.antt =====
-- cmd/saga/main.go, cmd/inventory/main.go, cmd/payment/main.go and cmd/notification/main.go. The four
-- files are the same but for the service's name, the variable of its port and the port's default.
mod Tests
use checkout_saga.Common.{String, ℕ, List, [], ◌∷◌, Option, none, some, if◌then◌else◌}
use checkout_saga.Common.Text.{Text, codes, is_empty, text_eq}
use checkout_saga.GoError.{Error}
use checkout_saga.Logger.{Ending, built, exited, panicked, new_with_service, info, sync}
use checkout_saga.Logger.Backend.{string_field, Zap, print_error}

-- What differs: serviceName, and the arguments of envOr for the port.
pub record Service : Type 0 where
  pub service_name : Text
  pub port_key : String
  pub default_port : Text

-- What the mains use of the process besides the logger: godotenv.Load, the variables, the Go version
-- of the build, signal.NotifyContext with its stop, and the wait for the context's end.
pub record Process (World : Type 0) : Type 0 where
  pub load_dotenv : World → Option Error × World
  pub environ : World → String → Option Text
  pub build_info : Option Text
  pub notify_context : World → World
  pub stop : World → World
  pub done : World → World

-- envOr behind LookupEnv
abbrev pub given_or : Option Text → Text → Text
given_or none fallback = fallback
given_or (some v) fallback = if is_empty v then fallback else v

-- envOr
abbrev pub env_or : (String → Option Text) → String → Text → Text
env_or environ key fallback = given_or (environ key) fallback

-- goVersion
abbrev pub go_version : Option Text → Text
go_version (some v) = v
go_version none = codes "unknown"

module _ {World : Type 0} (z : Zap World) (p : Process World) where
  -- The line "service starting".
  abbrev pub announce : (s : Service) (version commit : Text) → z.Logger → World → World
  announce s version commit log w =
      info z log (codes "service starting")
        (string_field "version" version
          ∷ string_field "commit" commit
          ∷ string_field "go_version" (go_version p.build_info)
          ∷ string_field "port" (env_or (p.environ w) s.port_key s.default_port)
          ∷ [])
        w

  -- main from its logger on, with the process's exit status.
  abbrev pub logged : (s : Service) (version commit : Text) → Ending z.Logger × World → ℕ × World
  logged s version commit (exited code, w) = (code, w)
  logged s version commit (panicked text, w) = (2, w)
  logged s version commit (built log, w) =
      let ended = p.done (p.notify_context (announce s version commit log w)) in
      let told = info z log (codes "shutdown signal received, exiting gracefully") [] ended in
      (0, print_error z "logger sync failed: " (sync z log (p.stop told)))

  -- main
  unfoldable pub main_of : (s : Service) (version commit : Text) → World → ℕ × World
  main_of s version commit w =
      let w1 = print_error z "warning: .env not loaded: " (p.load_dotenv w) in
      let level = env_or (p.environ w1) "LOG_LEVEL" (codes "info") in
      let mode = env_or (p.environ w1) "APP_ENV" (codes "development") in
      logged s version commit
        (new_with_service z level s.service_name (text_eq mode (codes "development")) w1)

  -- main of cmd/saga
  unfoldable pub saga_main : (version commit : Text) → World → ℕ × World
  saga_main = main_of (record {
    service_name = codes "saga-service";
    port_key = "SAGA_HTTP_PORT";
    default_port = codes "8084";
  })

  -- main of cmd/inventory
  unfoldable pub inventory_main : (version commit : Text) → World → ℕ × World
  inventory_main = main_of (record {
    service_name = codes "inventory-service";
    port_key = "INVENTORY_HTTP_PORT";
    default_port = codes "8082";
  })

  -- main of cmd/payment
  unfoldable pub payment_main : (version commit : Text) → World → ℕ × World
  payment_main = main_of (record {
    service_name = codes "payment-service";
    port_key = "PAYMENT_HTTP_PORT";
    default_port = codes "8083";
  })

  -- main of cmd/notification
  unfoldable pub notification_main : (version commit : Text) → World → ℕ × World
  notification_main = main_of (record {
    service_name = codes "notification-service";
    port_key = "NOTIFICATION_HTTP_PORT";
    default_port = codes "8085";
  })
