-- ===== src/Logger/Propagation.antt =====
-- The context of a request through pkg/logger: what FromContext makes of any chain of derivations.
use checkout_saga.Common.{
  ◌≡◌, refl, ◌∙◌, List, [], ◌∷◌, ◌++◌, some, ℕ, Bool-cases, inl, inr, if◌then◌else◌,
}
use checkout_saga.Common.Text.{Text, is_empty}
use checkout_saga.Logger.Backend.{Level, Field, string_field, Zap, IsZap}
use checkout_saga.Logger.Contexts.{
  key_eq, logger_key, other_key, Value, Context, background, with_value, derived, value,
  with_trace_id, trace_id_from_context, logger_or, with_logger, enriched, from_context,
  trace_id_field,
}

-- One derivation: WithTraceID, WithLogger, a value under another package's key, or no value.
pub data Step (Logger : Type 0) : Type 0 where
  traced : Text → Step Logger
  logging : Logger → Step Logger
  valued : ℕ → Value Logger → Step Logger
  narrowed : Step Logger

module _ {Logger : Type 0} where
  -- A context behind derivations, the newest one first.
  abbrev pub derive : List (Step Logger) → Context Logger
  derive [] = background
  derive (traced id ∷ steps) = with_trace_id (derive steps) id
  derive (logging log ∷ steps) = with_logger (derive steps) log
  derive (valued k v ∷ steps) = with_value (derive steps) (other_key k) v
  derive (narrowed ∷ steps) = derived (derive steps)

  -- The newest trace id that is not empty.
  abbrev pub last_trace : List (Step Logger) → Text
  last_trace [] = []
  last_trace (traced id ∷ steps) = if is_empty id then last_trace steps else id
  last_trace (logging _ ∷ steps) = last_trace steps
  last_trace (valued _ _ ∷ steps) = last_trace steps
  last_trace (narrowed ∷ steps) = last_trace steps

  -- The newest logger, or the fallback.
  abbrev pub last_logger : Logger → List (Step Logger) → Logger
  last_logger fallback [] = fallback
  last_logger fallback (logging log ∷ steps) = log
  last_logger fallback (traced _ ∷ steps) = last_logger fallback steps
  last_logger fallback (valued _ _ ∷ steps) = last_logger fallback steps
  last_logger fallback (narrowed ∷ steps) = last_logger fallback steps

  derive-trace :
      (steps : List (Step Logger)) → trace_id_from_context (some (derive steps)) ≡ last_trace steps
  unfolding value key_eq
  derive-trace [] = refl
  derive-trace (traced id ∷ steps) = elim (Bool-cases (is_empty id)) [
    | inl h ↦ rw h (derive-trace steps)
    | inr h ↦ rw h refl
  ]
  derive-trace (logging log ∷ steps) = derive-trace steps
  derive-trace (valued k v ∷ steps) = derive-trace steps
  derive-trace (narrowed ∷ steps) = derive-trace steps

  derive-logger :
      (fallback : Logger) (steps : List (Step Logger))
      → logger_or fallback (value (derive steps) logger_key) ≡ last_logger fallback steps
  unfolding value key_eq
  derive-logger fallback [] = refl
  derive-logger fallback (traced id ∷ steps) = elim (Bool-cases (is_empty id)) [
    | inl h ↦ rw h (derive-logger fallback steps)
    | inr h ↦ rw h (derive-logger fallback steps)
  ]
  derive-logger fallback (logging log ∷ steps) = refl
  derive-logger fallback (valued k v ∷ steps) = derive-logger fallback steps
  derive-logger fallback (narrowed ∷ steps) = derive-logger fallback steps

-- The fields that a trace id adds to a line.
abbrev pub trace_fields : Text → List Field
trace_fields id = if is_empty id then [] else string_field trace_id_field id ∷ []

enriched-write :
    {World : Type 0} (z : Zap World)
    → IsZap z
    → (log : z.Logger) (id : Text) (level : Level) (msg : Text) (more : List Field) (w : World)
    → z.write (enriched z log id) level msg more w
      ≡ z.write log level msg (trace_fields id ++ more) w
enriched-write z laws log id level msg more w = elim (Bool-cases (is_empty id)) [
  | inl h ↦ rw h refl
  | inr h ↦ rw h (laws.write_with log (string_field trace_id_field id ∷ []) more level msg w)
]

-- Through any chain of derivations from the background context, a line of the logger of FromContext
-- is the same line of the newest logger of the chain, or of the fallback where it has none, with the
-- newest trace id that is not empty as its first field, and with no such field where there is none.
pub from_context-write :
    {World : Type 0} (z : Zap World)
    → IsZap z
    → (steps : List (Step z.Logger)) (fallback : z.Logger) (level : Level) (msg : Text)
      (more : List Field) (w : World)
    → z.write (from_context z (some (derive steps)) fallback) level msg more w
      ≡ z.write (last_logger fallback steps) level msg (trace_fields (last_trace steps) ++ more) w
unfolding from_context
from_context-write z laws steps fallback level msg more w =
    (λ i.
      z.write (enriched z (derive-logger fallback steps i) (derive-trace steps i)) level msg more w)
    ∙ enriched-write z laws (last_logger fallback steps) (last_trace steps) level msg more w
