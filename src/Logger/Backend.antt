-- ===== src/Logger/Backend.antt =====
-- What pkg/logger uses of go.uber.org/zap and of os.Stderr: a parameter of the model.
use checkout_saga.Common.{String, ◌≡◌, List, [], ◌∷◌, ◌++◌, Option, none, some, ℕ, Bool}
use checkout_saga.Common.Int.{ℤ}
use checkout_saga.Common.Text.{Text}
use checkout_saga.GoError.{Part, lit, Error, Result, message}

-- zapcore.Level, as far as the source names it
pub data Level : Type 0 where
  debug_level info_level warn_level error_level fatal_level : Level

-- zap.Field; zap.Error of a nil error is `skip_field`.
pub data Field : Type 0 where
  string_field : String → Text → Field
  bool_field : String → Bool → Field
  int32_field : String → ℤ → Field
  error_field : Error → Field
  skip_field : Field

-- zap.Error
abbrev pub error_or_skip : Option Error → Field
error_or_skip none = skip_field
error_or_skip (some e) = error_field e

-- The fields of zap.Config and of its EncoderConfig that New sets, and the rest of them.
pub record ZapConfig (LevelEncoder TimeEncoder Rest : Type 0) : Type 0 where
  pub level : Level
  pub time_key : String
  pub level_key : String
  pub encode_level : LevelEncoder
  pub encode_time : TimeEncoder
  pub output_paths : List String
  pub error_output_paths : List String
  pub rest : Rest

-- `World` is what the calls write to.
pub record Zap (World : Type 0) : Type 1 where
  pub Logger : Type 0
  pub LevelEncoder : Type 0
  pub TimeEncoder : Type 0
  pub Rest : Type 0
  pub capital_color_level_encoder : LevelEncoder
  pub capital_level_encoder : LevelEncoder
  pub iso8601_time_encoder : TimeEncoder
  pub new_development_config : ZapConfig LevelEncoder TimeEncoder Rest
  pub new_production_config : ZapConfig LevelEncoder TimeEncoder Rest
  -- Config.Build with AddCallerSkip
  pub build : ZapConfig LevelEncoder TimeEncoder Rest → (skip : ℕ) → World → Result Logger × World
  pub with_fields : Logger → List Field → Logger
  -- the logging methods
  pub write : Logger → Level → Text → List Field → World → World
  pub sync : Logger → World → Option Error × World
  pub write_stderr : List Part → World → Option Error × World

-- The fields of With stand before those of each line of the new logger.
pub record IsZap {World : Type 0} (z : Zap World) : Type 0 where
  pub write_with :
      (l : z.Logger) (fields more : List Field) (level : Level) (msg : Text) (w : World)
      → z.write (z.with_fields l fields) level msg more w ≡ z.write l level msg (fields ++ more) w

-- fmt.Fprintf(os.Stderr, …) of an error, if there is one
abbrev pub print_error : {World : Type 0} (z : Zap World) → String → Option Error × World → World
print_error z before (none, w) = w
print_error z before (some e, w) = (z.write_stderr (lit before ∷ message e ++ lit "\n" ∷ []) w).1
