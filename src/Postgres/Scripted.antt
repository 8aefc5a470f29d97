-- ===== src/Postgres/Scripted.antt =====
-- A pool in memory for pkg/postgres, whose pings follow a script.
use checkout_saga.Common.{ℕ, suc, refl, sym, ap, ◌∙◌, Bool, true, false, List, [], ◌∷◌, ◌++◌, none}
use checkout_saga.GoError.{ok-injective, foreign, Result, ok, err}
use checkout_saga.Postgres.Pgxpool.{Warning, PoolDriver, IsPoolDriver}

-- `answers` says which of the next pings succeed; a context that is done is one without answers.
pub record Scripted : Type 0 where
  pub created : ℕ
  pub opened : List ℕ
  pub answers : List Bool
  pub warnings : List Warning

abbrev pub answer : List Bool → Result (Unit {0})
answer [] = err (foreign "refused")
answer (true ∷ _) = ok tt
answer (false ∷ _) = err (foreign "refused")

abbrev pub others : List Bool → List Bool
others [] = []
others (_ ∷ bs) = bs

abbrev pub remaining : List ℕ → List ℕ
remaining [] = []
remaining (_ ∷ pools) = pools

abbrev pub driver : PoolDriver
driver = record {
  World = Scripted;
  Pool = ℕ;
  Parsed = Unit;
  Logger = Unit;
  Stat = ℕ;
  parse_config = λ url. ok tt;
  new_with_config =
      λ cfg w. (ok w.created, record w { created = suc w.created; opened = w.created ∷ w.opened });
  ping = λ timeout pool w. (answer w.answers, record w { answers = others w.answers });
  close = λ pool w. record w { opened = remaining w.opened };
  stat = λ pool w. 1;
  query_version = λ pool w. (ok [], w);
  nop = tt;
  warn = λ logger x w. record w { warnings = w.warnings ++ x ∷ [] };
  wait = λ backoff w. (none, w);
}

unfoldable pub driver-IsPoolDriver : IsPoolDriver driver
driver-IsPoolDriver = record {
  opened = λ w. w.opened;
  new_ok = λ cfg w w' pool h.
      sym (ap (λ x. x.1.opened) h) ∙ ap (λ p. p ∷ w.opened) (ok-injective (ap (λ x. x.0) h));
  new_err = λ cfg w w' e h. cc;
  ping_keeps = λ timeout pool w. refl;
  close_newest = λ pool w others h. ap remaining h;
  version_keeps = λ pool w. refl;
  warn_keeps = λ logger x w. refl;
  wait_keeps = λ backoff w. refl;
}

abbrev pub server : Scripted
server = record { created = 0; opened = 9 ∷ []; answers = false ∷ false ∷ true ∷ []; warnings = [] }
