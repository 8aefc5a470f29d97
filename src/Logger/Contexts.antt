-- ===== src/Logger/Contexts.antt =====
-- pkg/logger/logger.go: the trace id and the logger that a context.Context carries.
-- A context is the chain of what it was derived from; a nil one is `none`.
use checkout_saga.Common.{
  String, ℕ, Bool, true, false, [], ◌∷◌, Option, none, some, if◌then◌else◌, ◌==◌,
}
use checkout_saga.Common.Text.{Text, is_empty}
use checkout_saga.Logger.{with_fields}
use checkout_saga.Logger.Backend.{string_field, Zap}

-- TraceIDField
abbrev pub trace_id_field : String
trace_id_field = "trace_id"

-- traceIDKey, loggerKey, and the keys of other packages: a pointer equals only itself.
pub data Key : Type 0 where
  trace_id_key logger_key : Key
  other_key : ℕ → Key

unfoldable pub key_eq : Key → Key → Bool
key_eq trace_id_key trace_id_key = true
key_eq logger_key logger_key = true
key_eq (other_key a) (other_key b) = a == b
key_eq _ _ = false

-- What a context's value is for a type assertion.
pub data Value (Logger : Type 0) : Type 0 where
  string_value : Text → Value Logger
  logger_value : Logger → Value Logger
  other_value : Value Logger

-- context.Background, context.WithValue, and a context derived from a parent with no value
pub data Context (Logger : Type 0) : Type 0 where
  background : Context Logger
  with_value : Context Logger → Key → Value Logger → Context Logger
  derived : Context Logger → Context Logger

module _ {Logger : Type 0} where
  -- Context.Value
  unfoldable pub value : Context Logger → Key → Option (Value Logger)
  unfolding key_eq
  value background k = none
  value (with_value ctx key v) k = if key_eq key k then some v else value ctx k
  value (derived ctx) k = value ctx k

  -- WithTraceID
  abbrev pub with_trace_id : Context Logger → Text → Context Logger
  with_trace_id ctx trace_id =
      if is_empty trace_id then ctx else with_value ctx trace_id_key (string_value trace_id)

  -- The type assertion of TraceIDFromContext.
  abbrev pub string_or_empty : Option (Value Logger) → Text
  string_or_empty (some (string_value v)) = v
  string_or_empty (some (logger_value _)) = []
  string_or_empty (some other_value) = []
  string_or_empty none = []

  -- TraceIDFromContext
  abbrev pub trace_id_from_context : Option (Context Logger) → Text
  trace_id_from_context none = []
  trace_id_from_context (some ctx) = string_or_empty (value ctx trace_id_key)

  -- WithLogger
  abbrev pub with_logger : Context Logger → Logger → Context Logger
  with_logger ctx log = with_value ctx logger_key (logger_value log)

  -- The type assertion of FromContext.
  abbrev pub logger_or : Logger → Option (Value Logger) → Logger
  logger_or fallback (some (logger_value v)) = v
  logger_or fallback (some (string_value _)) = fallback
  logger_or fallback (some other_value) = fallback
  logger_or fallback none = fallback

module _ {World : Type 0} (z : Zap World) where
  -- The end of FromContext.
  abbrev pub enriched : z.Logger → Text → z.Logger
  enriched log trace_id =
      if is_empty trace_id
      then log
      else with_fields z log (string_field trace_id_field trace_id ∷ [])

  -- FromContext
  unfoldable pub from_context : Option (Context z.Logger) → z.Logger → z.Logger
  unfolding value
  from_context none fallback = fallback
  from_context (some ctx) fallback =
      enriched (logger_or fallback (value ctx logger_key)) (trace_id_from_context (some ctx))
