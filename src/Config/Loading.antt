-- ===== src/Config/Loading.antt =====
-- Load of pkg/config/config.go, over the libraries env and validator, which are parameters.
use checkout_saga.Common.{String, ◌≡◌, Option, none, some}
use checkout_saga.Common.Text.{Text}
use checkout_saga.GoError.{Error, prefixed, Result, ok, err, ◌>>=◌, annotate}
use checkout_saga.Config.{Config, IsParsed, IsValid}

-- env.Parse and validator.Struct on one type of configuration.
pub record Loader (C : Type 0) : Type 0 where
  pub parse : (String → Option Text) → Result C
  pub validate : C → Option Error

-- The libraries go by the tags.
pub record IsLoader (l : Loader Config) : Type 0 where
  pub parsed :
      (environ : String → Option Text) (cfg : Config)
      → l.parse environ ≡ ok cfg
      → IsParsed environ cfg
  pub validated : (cfg : Config) → l.validate cfg ≡ none → IsValid cfg

module _ {C : Type 0} where
  -- Load behind env.Parse.
  abbrev pub checked : C → Option Error → Result C
  checked cfg none = ok cfg
  checked cfg (some e) = err (prefixed "config.Load: validate: " e)

  -- Load
  unfoldable pub load : Loader C → (String → Option Text) → Result C
  load l environ =
      annotate "config.Load: parse env: " (l.parse environ)
      >>= (λ cfg. checked cfg (l.validate cfg))
