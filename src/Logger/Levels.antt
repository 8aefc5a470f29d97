-- ===== src/Logger/Levels.antt =====
-- parseLevel of pkg/logger/logger.go, on the words that it knows.
use checkout_saga.Common.{
  ℕ, Bool, true, ltb, ◌&&◌, ◌≡◌, ◌≢◌, refl, ap, ◌∙◌, sym, subst, [], ◌∷◌, ◌++◌, map, All, arith,
  ◌<◌,
}
use checkout_saga.Common.Text.{Text, codes, text_eq, is_empty}
use checkout_saga.Common.Text.Trim.{IsVisible, IsBlank, trim_space-padded}
use checkout_saga.Common.Text.Lower.{to_lower, lower_byte, to_lower_ascii}
use checkout_saga.Logger.{level_of, parse_level}
use checkout_saga.Logger.Backend.{Level, debug_level, info_level, warn_level, error_level}

-- The words of the doc comment of New, and "warning".
pub data Word : Type 0 where
  debug info warn warning error : Word

unfoldable pub spelling : Word → Text
unfolding codes
spelling debug = codes "debug"
spelling info = codes "info"
spelling warn = codes "warn"
spelling warning = codes "warning"
spelling error = codes "error"

abbrev pub meaning : Word → Level
meaning debug = debug_level
meaning info = info_level
meaning warn = warn_level
meaning warning = warn_level
meaning error = error_level

lower_byte-IsVisible : (a : ℕ) → IsVisible (lower_byte a) → IsVisible a
unfolding lower_byte
lower_byte-IsVisible a h = ground arith

lowered-IsVisible : (s : Text) → All IsVisible (map lower_byte s) → All IsVisible s
lowered-IsVisible [] h = tt
lowered-IsVisible (a ∷ s) (ha, hs) = (lower_byte-IsVisible a ha, lowered-IsVisible s hs)

visible-ascii : (s : Text) → All IsVisible s → All (λ a. a < 0x80) s
visible-ascii [] h = tt
visible-ascii (a ∷ s) ((_, ha), hs) = (ha, visible-ascii s hs)

abbrev all_visible : Text → Bool
all_visible [] = true
all_visible (a ∷ s) = (ltb 0x20 a && ltb a 0x80) && all_visible s

visible_lem : (s : Text) → all_visible s ≡ true → All IsVisible s
visible_lem [] h = tt
visible_lem (a ∷ s) h = ground (arith, visible_lem s)

spelling-IsVisible : (w : Word) → All IsVisible (spelling w)
unfolding spelling
spelling-IsVisible debug = visible_lem (spelling debug) refl
spelling-IsVisible info = visible_lem (spelling info) refl
spelling-IsVisible warn = visible_lem (spelling warn) refl
spelling-IsVisible warning = visible_lem (spelling warning) refl
spelling-IsVisible error = visible_lem (spelling error) refl

not_empty : (w : Word) → [] ≢ spelling w
unfolding spelling
not_empty debug h = ground (arith, ap is_empty h)
not_empty info h = ground (arith, ap is_empty h)
not_empty warn h = ground (arith, ap is_empty h)
not_empty warning h = ground (arith, ap is_empty h)
not_empty error h = ground (arith, ap is_empty h)

spelling-level_of : (w : Word) → level_of (spelling w) ≡ meaning w
unfolding level_of text_eq spelling
spelling-level_of debug = refl
spelling-level_of info = refl
spelling-level_of warn = refl
spelling-level_of warning = refl
spelling-level_of error = refl

-- A word of a level in any mix of upper and lower case, with any ASCII white space around it, is read
-- as that level.
parse_level-padded :
    (w : Word) (left s right : Text)
    → All IsBlank left
    → map lower_byte s ≡ spelling w
    → All IsBlank right
    → parse_level (left ++ (s ++ right)) ≡ meaning w
unfolding parse_level
parse_level-padded w left [] right hl h hr = absurd (not_empty w h)
parse_level-padded w left (a ∷ s) right hl h hr =
    let visible =
      lowered-IsVisible (a ∷ s) (subst (All IsVisible) (sym h) (spelling-IsVisible w)) in
    ap (λ t. level_of (to_lower t)) (trim_space-padded left a s right hl visible hr)
    ∙ ap level_of (to_lower_ascii (a ∷ s) (visible-ascii (a ∷ s) visible) ∙ h)
    ∙ spelling-level_of w
