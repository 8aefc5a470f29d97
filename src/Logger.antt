-- ===== src/Logger.antt =====
-- pkg/logger/logger.go: the set-up of a logger, its level, and what a zapLogger passes on to zap.
pub mod Backend
pub mod Levels
pub mod SetUp
pub mod Contexts
pub mod Propagation
pub mod Recording
mod Tests
use checkout_saga.Common.{
  String, ◌≡◌, Bool, true, false, List, [], ◌∷◌, ◌++◌, Option, none, some, ℕ, if◌then◌else◌, ◌||◌,
}
use checkout_saga.Common.Text.{Text, codes, text_eq}
use checkout_saga.Common.Text.Trim.{trim_space}
use checkout_saga.Common.Text.Lower.{to_lower}
use checkout_saga.GoError.{Part, lit, Error, Result, ok, err, message}
use checkout_saga.Logger.Backend.{
  Level, debug_level, info_level, warn_level, error_level, fatal_level, Field, string_field,
  ZapConfig, Zap,
}

-- ServiceField
abbrev pub service_field : String
service_field = "service"

-- The switch of parseLevel, on the trimmed word in lower case
unfoldable pub level_of : Text → Level
unfolding codes
level_of s =
    if text_eq s (codes "debug")
    then debug_level
    else if text_eq s (codes "info")
    then info_level
    else if text_eq s (codes "warn") || text_eq s (codes "warning")
    then warn_level
    else if text_eq s (codes "error")
    then error_level
    else info_level

-- parseLevel
unfoldable pub parse_level : Text → Level
parse_level s = level_of (to_lower (trim_space s))

-- How New ends: it returns a logger, or it ends the process by os.Exit or by a panic.
pub data Ending (Logger : Type 0) : Type 0 where
  built : Logger → Ending Logger
  exited : (code : ℕ) → Ending Logger
  panicked : List Part → Ending Logger

module _ {World : Type 0} (z : Zap World) where
  open z use {Logger}

  abbrev BuildConfig : Type 0
  BuildConfig = ZapConfig z.LevelEncoder z.TimeEncoder z.Rest

  -- The branch of New for a development logger.
  abbrev pub development_config : BuildConfig
  development_config = record (z.new_development_config) {
    encode_level = z.capital_color_level_encoder;
    encode_time = z.iso8601_time_encoder;
  }

  -- The branch of New for production.
  abbrev pub production_config : BuildConfig
  production_config = record (z.new_production_config) {
    time_key = "timestamp";
    encode_time = z.iso8601_time_encoder;
    level_key = "severity";
    encode_level = z.capital_level_encoder;
  }

  -- The configuration that New builds from.
  unfoldable pub config : Text → Bool → BuildConfig
  config level development =
      record (if development then development_config else production_config) {
        level = parse_level level;
        output_paths = "stdout" ∷ [];
        error_output_paths = "stderr" ∷ [];
      }

  -- New behind a failed Build, from what the write to stderr returns.
  abbrev pub after_report : Error → Option Error × World → Ending Logger × World
  after_report e (none, w) = (exited 1, w)
  after_report e (some werr, w) = (
    panicked (
        lit "logger init failed and stderr is unavailable: " ∷ message e
        ++ lit " / " ∷ message werr),
    w,
  )

  -- New behind Build.
  abbrev pub built_or_report : Result Logger × World → Ending Logger × World
  built_or_report (ok l, w) = (built l, w)
  built_or_report (err e, w) =
      after_report e (z.write_stderr (lit "logger init failed: " ∷ message e ++ lit "\n" ∷ []) w)

  -- New
  unfoldable pub new : Text → Bool → World → Ending Logger × World
  new level development w = built_or_report (z.build (config level development) 1 w)

  -- zapLogger.With
  abbrev pub with_fields : Logger → List Field → Logger
  with_fields l fields = z.with_fields l fields

  -- zapLogger.Debug, Info, Warn, Error and Fatal
  abbrev pub debug : Logger → Text → List Field → World → World
  debug l msg fields w = z.write l debug_level msg fields w

  abbrev pub info : Logger → Text → List Field → World → World
  info l msg fields w = z.write l info_level msg fields w

  abbrev pub warn : Logger → Text → List Field → World → World
  warn l msg fields w = z.write l warn_level msg fields w

  abbrev pub error : Logger → Text → List Field → World → World
  error l msg fields w = z.write l error_level msg fields w

  abbrev pub fatal : Logger → Text → List Field → World → World
  fatal l msg fields w = z.write l fatal_level msg fields w

  -- zapLogger.Sync
  abbrev pub sync : Logger → World → Option Error × World
  sync l w = z.sync l w

  -- NewWithService behind New.
  abbrev pub named : Text → Ending Logger × World → Ending Logger × World
  named service (built l, w) = (built (with_fields l (string_field service_field service ∷ [])), w)
  named service (exited code, w) = (exited code, w)
  named service (panicked text, w) = (panicked text, w)

  -- NewWithService
  unfoldable pub new_with_service : (level service : Text) → Bool → World → Ending Logger × World
  new_with_service level service development w = named service (new level development w)
