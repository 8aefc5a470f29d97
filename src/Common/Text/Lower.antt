-- ===== src/Common/Text/Lower.antt =====
-- strings.ToLower, as far as its result is ASCII: the two characters beyond ASCII whose lower case is
-- an ASCII letter are U+0130 (i) and U+212A (k); any other one keeps its bytes here, where the source
-- gives it another character beyond ASCII.
use Prim.Native.Nat.{ℕ, zero, suc, ◌+◌, ◌<◌}
use mathlib.Core.Path.{◌≡◌, refl}
use mathlib.Core.Bool.{Bool, false, ◌&&◌}
use mathlib.Core.List.{[], ◌∷◌, map}
use native.Mathlib.Omega.{arith}
use checkout_saga.Common.Tests.{leb, if◌then◌else◌}
use checkout_saga.Common.Lists.{All}
use checkout_saga.Common.Text.{Text, has_prefix}

is_upper : ℕ → Bool
is_upper a = leb b'A' a && leb a b'Z'

unfoldable pub lower_byte : ℕ → ℕ
unfolding is_upper
lower_byte a = if is_upper a then a + 32 else a

behind : ℕ → Text → Text
behind zero s = s
behind (suc n) [] = []
behind (suc n) (a ∷ s) = behind n s

unfoldable pub to_lower : Text → Text
unfolding has_prefix lower_byte behind
to_lower [] = []
to_lower (a ∷ s) =
    let rest = to_lower s in
    if has_prefix (a ∷ s) (0xc4 ∷ 0xb0 ∷ [])
    then b'i' ∷ behind 1 rest
    else if has_prefix (a ∷ s) (0xe2 ∷ 0x84 ∷ 0xaa ∷ [])
    then b'k' ∷ behind 2 rest
    else lower_byte a ∷ rest

not_wide : (a b : ℕ) (s t : Text) → a < 0x80 → 0x80 < b → has_prefix (a ∷ s) (b ∷ t) ≡ false
unfolding has_prefix
not_wide a b s t h k = ground arith

-- On ASCII text each byte is lowered by itself.
pub to_lower_ascii : (s : Text) → All (λ a. a < 0x80) s → to_lower s ≡ map lower_byte s
unfolding to_lower
to_lower_ascii [] h = refl
to_lower_ascii (a ∷ s) (low, h) =
    rw
      (
        not_wide a 0xc4 s (0xb0 ∷ []) low (ground arith),
        not_wide a 0xe2 s (0x84 ∷ 0xaa ∷ []) low (ground arith),
        to_lower_ascii s h,
      )
      refl
