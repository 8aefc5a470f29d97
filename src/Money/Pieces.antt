-- ===== src/Money/Pieces.antt =====
-- Taking a text apart: its sign, the parts round its first point, and the padded fraction.
use checkout_saga.Common.{
  ◌≤◌, ◌≡◌, ◌≢◌, ◌↔◌, refl, Bool, true, false, Option, none, some, [], ◌∷◌, ◌++◌, length, All,
  arith, ◌==◌, Bool-cases, inl, inr,
}
use checkout_saga.Common.Text.{Text, has_prefix, trim_prefix, cut}
use checkout_saga.Common.Decimal.{IsDigit, value}
use checkout_saga.Money.{unsign, pad_minor}
use checkout_saga.Money.Grammar.{
  Sign, bare, plus, minus, plus_minus, sign_text, point, digits_of, hundredths,
}

abbrev pub is_minus : Sign → Bool
is_minus minus = true
is_minus _ = false

-- How a text splits into one of the four signs and the rest.
pub record IsSplit (raw rest : Text) (negative : Bool) : Type 0 where
  pub sign : Sign
  pub spelled : raw ≡ sign_text sign ++ rest
  pub negative_lem : negative ≡ is_minus sign

-- Whatever the text, `unsign` removes one of the four signs, and "-" is noticed.
pub unsign-IsSplit : (raw : Text) → IsSplit raw (unsign raw) (has_prefix raw (b'-' ∷ []))
unfolding unsign trim_prefix has_prefix
unsign-IsSplit [] = record { sign = bare; spelled = refl; negative_lem = refl }
unsign-IsSplit (a ∷ []) = elim (Bool-cases (a == b'+')) [
  | inl p ↦ record { sign = plus; spelled = ground arith; negative_lem = ground arith }
  | inr np ↦ elim (Bool-cases (a == b'-')) [
    | inl m ↦ record { sign = minus; spelled = ground arith; negative_lem = ground arith }
    | inr nm ↦ record { sign = bare; spelled = ground arith; negative_lem = ground arith }
  ]
]
unsign-IsSplit (a ∷ (b ∷ s)) = elim (Bool-cases (a == b'+')) [
  | inl p ↦ elim (Bool-cases (b == b'-')) [
    | inl q ↦ record { sign = plus_minus; spelled = ground arith; negative_lem = ground arith }
    | inr nq ↦ record { sign = plus; spelled = ground arith; negative_lem = ground arith }
  ]
  | inr np ↦ elim (Bool-cases (a == b'-')) [
    | inl m ↦ record { sign = minus; spelled = ground arith; negative_lem = ground arith }
    | inr nm ↦ record { sign = bare; spelled = ground arith; negative_lem = ground arith }
  ]
]

-- No sign at the front: what `unsign` leaves behind a sign.
abbrev pub IsUnsigned : Text → Type 0
IsUnsigned [] = Unit
IsUnsigned (a ∷ _) = (a ≢ b'+') × (a ≢ b'-')

pub unsign-sign :
    (g : Sign) (rest : Text)
    → IsUnsigned rest
    → (unsign (sign_text g ++ rest) ≡ rest)
      × (has_prefix (sign_text g ++ rest) (b'-' ∷ []) ≡ is_minus g)
unfolding unsign trim_prefix has_prefix
unsign-sign bare [] h = (refl, refl)
unsign-sign plus [] h = (refl, refl)
unsign-sign minus [] h = (refl, refl)
unsign-sign plus_minus [] h = (refl, refl)
unsign-sign bare (a ∷ s) h = ground arith
unsign-sign plus (a ∷ s) h = ground arith
unsign-sign minus (a ∷ s) h = ground arith
unsign-sign plus_minus (a ∷ s) h = ground arith

-- `cut` at the first point, backwards.
pub record IsCut (s before after : Text) : Type 0 where
  pub fraction : Option Text
  pub spelled : s ≡ before ++ point fraction
  pub after_lem : after ≡ digits_of fraction

pub cut-IsCut : (s : Text) → IsCut s (cut b'.' s).0 (cut b'.' s).1
unfolding cut
cut-IsCut [] = record { fraction = none; spelled = refl; after_lem = refl }
cut-IsCut (a ∷ s) = elim (Bool-cases (a == b'.')) [
  | inl p ↦ record { fraction = some s; spelled = ground arith; after_lem = ground arith }
  | inr np ↦
      let c = cut-IsCut s in
      record { fraction = c.fraction; spelled = ground arith; after_lem = ground arith }
]

pub cut-point :
    (whole : Text) (fraction : Option Text)
    → All IsDigit whole
    → cut b'.' (whole ++ point fraction) ≡ (whole, digits_of fraction)
unfolding cut
cut-point [] none h = refl
cut-point [] (some f) h = refl
cut-point (c ∷ s) f h = ground (arith, cut-point s f h.1)

-- The loop that pads ends with at least two characters, and appends zeros only.
pub pad_minor_lem :
    (minor : Text)
    → length minor ≤ 2
    → (length (pad_minor 2 minor) ≡ 2)
      × (All IsDigit minor ↔ All IsDigit (pad_minor 2 minor))
      × (value 0 (pad_minor 2 minor) ≡ hundredths minor)
unfolding pad_minor
pad_minor_lem [] h = ground arith
pad_minor_lem (a ∷ []) h = ground arith
pad_minor_lem (a ∷ (b ∷ [])) h = ground arith
pad_minor_lem (a ∷ (b ∷ (c ∷ s))) h = absurd (omega arith)
