-- ===== src/Common/Text.antt =====
-- Go strings are byte sequences: `len`, indexing and slicing count bytes.
-- The functions of package strings that the source calls, on bytes.
pub mod Trim
pub mod Lower
use Prim.Native.Nat.{ℕ}
use Prim.Native.Char.{code}
use Prim.Native.String.{String}
use mathlib.Core.Path.{◌≡◌, refl}
use mathlib.Core.Logic.{◌↔◌}
use mathlib.Core.Bool.{Bool, true, false, ◌&&◌}
use mathlib.Core.List.{List, [], ◌∷◌, ◌++◌}
use native.Mathlib.Omega.{arith}
use checkout_saga.Common.Tests.{◌==◌, if◌then◌else◌}

abbrev pub Text : Type 0
Text = List ℕ

-- The bytes of an ASCII literal.
unfoldable pub codes : String → Text
codes String.[] = []
codes (String.◌∷◌ c s) = code c ∷ codes s

abbrev pub is_empty : Text → Bool
is_empty [] = true
is_empty (_ ∷ _) = false

-- `==` on strings
unfoldable pub text_eq : Text → Text → Bool
text_eq [] [] = true
text_eq (a ∷ s) (b ∷ t) = a == b && text_eq s t
text_eq _ _ = false

pub text_eq_iff : (s t : Text) → (text_eq s t ≡ true) ↔ (s ≡ t)
unfolding text_eq
text_eq_iff [] [] = ground arith
text_eq_iff [] (b ∷ t) = ground arith
text_eq_iff (a ∷ s) [] = ground arith
text_eq_iff (a ∷ s) (b ∷ t) = ground (arith, text_eq_iff s t)

-- strings.HasPrefix
unfoldable pub has_prefix : Text → Text → Bool
has_prefix s [] = true
has_prefix [] (b ∷ t) = false
has_prefix (a ∷ s) (b ∷ t) = a == b && has_prefix s t

drop_prefix : Text → Text → Text
drop_prefix s [] = s
drop_prefix [] (b ∷ t) = []
drop_prefix (a ∷ s) (b ∷ t) = drop_prefix s t

-- strings.TrimPrefix
unfoldable pub trim_prefix : Text → Text → Text
unfolding drop_prefix has_prefix
trim_prefix s t = if has_prefix s t then drop_prefix s t else s

-- strings.Cut at a separator of one byte, without its third result: what is before the first
-- occurrence, and what is behind it.
unfoldable pub cut : ℕ → Text → Text × Text
cut c [] = ([], [])
cut c (a ∷ s) = let (before, after) = cut c s in if a == c then ([], s) else (a ∷ before, after)
