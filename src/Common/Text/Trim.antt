-- ===== src/Common/Text/Trim.antt =====
-- strings.TrimSpace: white space is what unicode.IsSpace accepts, in its UTF-8 encoding of one,
-- two or three bytes.
use Prim.Native.Nat.{ℕ, zero, suc, ◌<◌, ◌≤◌}
use mathlib.Core.Path.{◌≡◌, refl, ◌∙◌, ap, sym}
use mathlib.Core.Logic.{◌⊎◌}
use mathlib.Core.Bool.{Bool, ◌&&◌, ◌||◌}
use mathlib.Core.List.{[], ◌∷◌, ◌++◌, reverse, reverse-append, reverse-reverse}
use native.Mathlib.Omega.{arith}
use checkout_saga.Common.Tests.{leb, ◌==◌, if◌then◌else◌}
use checkout_saga.Common.Lists.{get_or, All, All-reverse}
use checkout_saga.Common.Text.{Text}

is_space1 : ℕ → Bool
is_space1 a = a == 0x20 || (leb 0x09 a && leb a 0x0d)

-- U+0085 and U+00A0
is_space2 : ℕ → ℕ → Bool
is_space2 a b = a == 0xc2 && (b == 0x85 || b == 0xa0)

-- U+1680, U+2000 to U+200A, U+2028, U+2029, U+202F, U+205F and U+3000
is_space3 : ℕ → ℕ → ℕ → Bool
is_space3 a b c =
    (a == 0xe1 && (b == 0x9a && c == 0x80))
    || (a == 0xe2
        && (b == 0x80 && ((leb 0x80 c && leb c 0x8a) || (c == 0xa8 || (c == 0xa9 || c == 0xaf)))))
    || (a == 0xe2 && (b == 0x81 && c == 0x9f))
    || (a == 0xe3 && (b == 0x80 && c == 0x80))

-- The number of bytes of the space that the bytes `a`, `b`, `c` begin with; 0 if none.
width_front : ℕ → ℕ → ℕ → ℕ
width_front a b c =
    if is_space1 a then 1 else if is_space2 a b then 2 else if is_space3 a b c then 3 else 0

-- The same from the end: `a` is the last byte, `b` the one before it.
width_back : ℕ → ℕ → ℕ → ℕ
width_back a b c =
    if is_space1 a then 1 else if is_space2 b a then 2 else if is_space3 c b a then 3 else 0

-- The loop of strings.TrimFunc: `k` bytes of the present space are still to be dropped.
skip : (ℕ → ℕ → ℕ → ℕ) → ℕ → Text → Text
skip width k [] = []
skip width (suc k) (a ∷ s) = skip width k s
skip width zero (a ∷ s) = elim (width a (get_or s 0 0) (get_or s 1 0)) [
  | zero ↦ a ∷ s
  | suc k ↦ skip width k s
]

unfoldable pub trim_space : Text → Text
unfolding skip width_front width_back is_space1 is_space2 is_space3
trim_space s = reverse (skip width_back 0 (reverse (skip width_front 0 s)))

-- A visible ASCII character.
abbrev pub IsVisible : ℕ → Type 0
IsVisible a = (0x20 < a) × (a < 0x80)

width_front-visible : (a b c : ℕ) → IsVisible a → width_front a b c ≡ 0
unfolding width_front is_space1 is_space2 is_space3
width_front-visible a b c h = ground arith

width_back-visible : (a b c : ℕ) → IsVisible a → width_back a b c ≡ 0
unfolding width_back is_space1 is_space2 is_space3
width_back-visible a b c h = ground arith

skip-stop :
    (width : ℕ → ℕ → ℕ → ℕ) (a : ℕ) (s : Text)
    → width a (get_or s 0 0) (get_or s 1 0) ≡ 0
    → skip width 0 (a ∷ s) ≡ a ∷ s
unfolding skip
skip-stop width a s h = ground arith

-- A text that begins and ends with visible characters is left alone.
pub trim_space-visible :
    (a : ℕ) (s : Text) (z : ℕ) (r : Text)
    → IsVisible a
    → IsVisible z
    → reverse (a ∷ s) ≡ z ∷ r
    → trim_space (a ∷ s) ≡ a ∷ s
unfolding trim_space
trim_space-visible a s z r ha hz e =
    ap (λ t. reverse (skip width_back 0 (reverse t)))
      (skip-stop width_front a s (width_front-visible a (get_or s 0 0) (get_or s 1 0) ha))
    ∙ ap (λ t. reverse (skip width_back 0 t)) e
    ∙ ap reverse (skip-stop width_back z r (width_back-visible z (get_or r 0 0) (get_or r 1 0) hz))
    ∙ ap reverse (sym e)
    ∙ reverse-reverse (a ∷ s)

-- ASCII white space.
abbrev pub IsBlank : ℕ → Type 0
IsBlank a = (a ≡ 0x20) ⊎ ((0x09 ≤ a) × (a ≤ 0x0d))

width_front-blank : (a b c : ℕ) → IsBlank a → width_front a b c ≡ 1
unfolding width_front is_space1
width_front-blank a b c h = ground arith

width_back-blank : (a b c : ℕ) → IsBlank a → width_back a b c ≡ 1
unfolding width_back is_space1
width_back-blank a b c h = ground arith

skip-blanks :
    (width : ℕ → ℕ → ℕ → ℕ)
    → ((a b c : ℕ) → IsBlank a → width a b c ≡ 1)
    → (blanks t : Text) → All IsBlank blanks
    → skip width 0 (blanks ++ t) ≡ skip width 0 t
unfolding skip
skip-blanks width one [] t h = refl
skip-blanks width one (a ∷ blanks) t (blank, h) =
    rw (one a (get_or (blanks ++ t) 0 0) (get_or (blanks ++ t) 1 0) blank)
      (skip-blanks width one blanks t h)

skip_back-visible : (t : Text) → All IsVisible t → skip width_back 0 t ≡ t
unfolding skip
skip_back-visible [] h = refl
skip_back-visible (a ∷ t) (visible, h) =
    skip-stop width_back a t (width_back-visible a (get_or t 0 0) (get_or t 1 0) visible)

-- A word of visible characters, out of the ASCII white space around it.
pub trim_space-padded :
    (left : Text) (a : ℕ) (s right : Text)
    → All IsBlank left
    → All IsVisible (a ∷ s)
    → All IsBlank right
    → trim_space (left ++ (a ∷ s ++ right)) ≡ a ∷ s
unfolding trim_space
trim_space-padded left a s right hl (ha, hs) hr =
    ap (λ t. reverse (skip width_back 0 (reverse t)))
      (skip-blanks width_front width_front-blank left (a ∷ s ++ right) hl
        ∙ skip-stop width_front a (s ++ right)
            (width_front-visible a (get_or (s ++ right) 0 0) (get_or (s ++ right) 1 0) ha))
    ∙ ap (λ t. reverse (skip width_back 0 t)) (reverse-append (a ∷ s) right)
    ∙ ap reverse (
        skip-blanks width_back width_back-blank (reverse right) (reverse (a ∷ s))
          (All-reverse IsBlank right hr)
        ∙ skip_back-visible (reverse (a ∷ s)) (All-reverse IsVisible (a ∷ s) (ha, hs)))
    ∙ reverse-reverse (a ∷ s)
