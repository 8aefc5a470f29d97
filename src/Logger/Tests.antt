-- ===== src/Logger/Tests.antt =====
-- The theorems on loggers, at the logger that keeps its lines.
use checkout_saga.Common.{◌≡◌, refl, List, [], ◌∷◌, some}
use checkout_saga.Common.Text.{Text, codes, text_eq, has_prefix}
use checkout_saga.Common.Text.Trim.{trim_space}
use checkout_saga.Common.Text.Lower.{to_lower, lower_byte}
use checkout_saga.Logger.{parse_level, level_of}
use checkout_saga.Logger.Backend.{info_level, warn_level, string_field}
use checkout_saga.Logger.Recording.{zap, zap-IsZap}
use checkout_saga.Logger.Contexts.{from_context, trace_id_field}
use checkout_saga.Logger.Propagation.{Step, traced, logging, narrowed, derive, from_context-write}

abbrev steps : List (Step zap.Logger)
steps = narrowed ∷ traced (b'7' ∷ []) ∷ logging [] ∷ traced (b'3' ∷ []) ∷ []

from_context-write_example :
    zap.write (from_context zap (some (derive steps)) []) info_level [] [] []
    ≡ zap.write [] info_level [] (string_field trace_id_field (b'7' ∷ []) ∷ []) []
from_context-write_example = from_context-write zap zap-IsZap steps [] info_level [] [] []

-- " WARning" and a line feed behind it
abbrev shouted : Text
unfolding codes
shouted = codes "WARning"

-- A word with a dotted capital I, which is lowered to an i.
dotted : parse_level (b'w' ∷ b'a' ∷ b'r' ∷ b'n' ∷ 0xc4 ∷ 0xb0 ∷ b'n' ∷ b'g' ∷ []) ≡ warn_level
unfolding parse_level level_of to_lower trim_space text_eq lower_byte has_prefix
dotted = refl
