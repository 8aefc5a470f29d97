-- ===== src/Logger/Recording.antt =====
-- A logger that keeps its lines, the newest one first: the law of pkg/logger's `IsZap` can hold.
use checkout_saga.Common.{ℕ, List, [], ◌∷◌, ◌++◌, none}
use mathlib.Core.List.{append_assoc}
use checkout_saga.Common.Text.{Text}
use checkout_saga.GoError.{ok}
use checkout_saga.Logger.Backend.{Level, info_level, Field, ZapConfig, Zap, IsZap}

-- A line, with the fields of its logger
pub record Line : Type 0 where
  pub fields : List Field
  pub level : Level
  pub text : Text

abbrev plain_config : ZapConfig ℕ ℕ (Unit {0})
plain_config = record {
  level = info_level;
  time_key = "ts";
  level_key = "level";
  encode_level = 0;
  encode_time = 0;
  output_paths = "stderr" ∷ [];
  error_output_paths = "stderr" ∷ [];
  rest = tt;
}

-- The world is the lines; a logger is its fields.
abbrev pub zap : Zap (List Line)
zap = record {
  Logger = List Field;
  LevelEncoder = ℕ;
  TimeEncoder = ℕ;
  Rest = Unit;
  capital_color_level_encoder = 1;
  capital_level_encoder = 2;
  iso8601_time_encoder = 1;
  new_development_config = plain_config;
  new_production_config = plain_config;
  build = λ config skip w. (ok [], w);
  with_fields = λ l fields. l ++ fields;
  write = λ l level msg more w. record { fields = l ++ more; level = level; text = msg } ∷ w;
  sync = λ l w. (none, w);
  write_stderr = λ text w. (none, w);
}

pub zap-IsZap : IsZap zap
zap-IsZap = record {
  write_with = λ l fields more level msg w i.
      record { fields = append_assoc l fields more i; level = level; text = msg } ∷ w;
}
