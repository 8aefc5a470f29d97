-- ===== src/Services/Tests.antt =====
-- A run of the payment service with an empty environment.
use checkout_saga.Common.{◌≡◌, refl, List, [], none}
use checkout_saga.Common.Text.{codes}
use checkout_saga.Logger.{new, new_with_service}
use checkout_saga.Logger.Recording.{Line, zap}
use checkout_saga.Services.{Service, Process, main_of}

abbrev process : Process (List Line)
process = record {
  load_dotenv = λ w. (none, w);
  environ = λ w key. none;
  build_info = none;
  notify_context = λ w. w;
  stop = λ w. w;
  done = λ w. w;
}

abbrev payment : Service
payment = record {
  service_name = codes "payment-service";
  port_key = "PAYMENT_HTTP_PORT";
  default_port = codes "8083";
}

-- It ends with status 0.
runs : (main_of zap process payment [] [] []).0 ≡ 0
unfolding new main_of new_with_service
runs = refl
