-- ===== src/Logger/SetUp.antt =====
-- How New and NewWithService of pkg/logger/logger.go end.
use checkout_saga.Common.{List, Bool, Option, none, some}
use checkout_saga.Common.Text.{Text}
use checkout_saga.GoError.{Part, Error, Result, ok, err}
use checkout_saga.Logger.{
  Ending, built, exited, panicked, config, after_report, built_or_report, named, new,
  new_with_service,
}
use checkout_saga.Logger.Backend.{Zap}

-- A set-up that ends the process does so with status 1, or by a panic.
pub data SetUp {Logger : Type 0} : Ending Logger → Type 0 where
  set_up : (l : Logger) → SetUp (built l)
  gave_up : SetUp (exited 1)
  panicking : (text : List Part) → SetUp (panicked text)

module _ {World : Type 0} (z : Zap World) where
  reported-SetUp : (e : Error) (x : Option Error × World) → SetUp (after_report z e x).0
  reported-SetUp e (none, w) = gave_up
  reported-SetUp e (some f, w) = panicking _

  built-SetUp : (x : Result z.Logger × World) → SetUp (built_or_report z x).0
  built-SetUp (ok l, w) = set_up l
  built-SetUp (err e, w) = reported-SetUp e _

  named-SetUp :
      (service : Text) (x : Ending z.Logger × World) → SetUp x.0 → SetUp (named z service x).0
  named-SetUp service (built l, w) s = set_up _
  named-SetUp service (exited code, w) s = s
  named-SetUp service (panicked text, w) s = panicking text

  pub new_with_service-SetUp :
      (level service : Text) (development : Bool) (w : World)
      → SetUp (new_with_service z level service development w).0
  unfolding new_with_service new
  new_with_service-SetUp level service development w =
      named-SetUp service (new z level development w)
        (built-SetUp (z.build (config z level development) 1 w))
