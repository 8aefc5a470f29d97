-- ===== src/Money/Parsing.antt =====
-- ParseMoney behind the sign and the point: which parts it accepts, and that its int64 arithmetic is
-- exact on them.
use checkout_saga.Common.{
  ℕ, ◌+◌, ◌*◌, ◌^◌, ◌≤◌, ◌<◌, ◌≡◌, ◌≢◌, ◌↔◌, refl, ap, ◌∙◌, Bool, true, false, [], ◌∷◌, length, All,
  arith, if◌then◌else◌, some,
}
use checkout_saga.Common.Int.{ℤ, pos, neg_ℕ, wrap64, ◌+ℤ◌, ◌*ℤ◌}
use checkout_saga.Common.Text.{Text}
use checkout_saga.Common.Decimal.{IsDigit, value, parse_int}
use checkout_saga.Common.Decimal.Laws.{all_digits_iff, value-lt, parse_int-digits}
use checkout_saga.GoError.{ok}
use checkout_saga.Money.{is_digits, default_zero, pad_minor, total_cents, parse_parts}
use checkout_saga.Money.Grammar.{hundredths}
use checkout_saga.Money.Pieces.{pad_minor_lem}

is_digits_iff : (s : Text) → s ≢ [] → (is_digits s ≡ true) ↔ All IsDigit s
unfolding is_digits
is_digits_iff [] h = absurd (h refl)
is_digits_iff (c ∷ s) h = all_digits_iff (c ∷ s)

default_zero-ne-nil : (s : Text) → default_zero s ≢ []
default_zero-ne-nil [] = cc
default_zero-ne-nil (c ∷ s) = cc

default_zero-digits : (s : Text) → All IsDigit s ↔ All IsDigit (default_zero s)
default_zero-digits [] = (λ _. ((omega arith, omega arith), tt), λ _. tt)
default_zero-digits (c ∷ s) = (λ h. h, λ h. h)

value-default_zero : (s : Text) → value 0 (default_zero s) ≡ value 0 s
value-default_zero [] = refl
value-default_zero (c ∷ s) = refl

length-default_zero : (s : Text) → (length (default_zero s) ≤ 15) ↔ (length s ≤ 15)
length-default_zero [] = omega arith
length-default_zero (c ∷ s) = (λ h. h, λ h. h)

ne-nil_of_length : (s : Text) → length s ≡ 2 → s ≢ []
ne-nil_of_length [] h = absurd (omega arith)
ne-nil_of_length (c ∷ s) h = cc

abbrev pub signed_by : Bool → ℕ → ℤ
signed_by negative n = if negative then neg_ℕ n else pos n

-- In int64 nothing wraps around: fifteen digits and two places stay below 10 ^ 17.
pub total_cents-exact :
    (negative : Bool) (major minor : ℕ)
    → major < 10 ^ 15
    → minor < 100
    → total_cents negative (pos major) (pos minor) ≡ signed_by negative (major * 100 + minor)
unfolding total_cents ◌*ℤ◌ ◌+ℤ◌ wrap64
total_cents-exact true major minor h k = ground arith
total_cents-exact false major minor h k = ground arith

-- What the parts must be.
pub record AreAccepted (major minor : Text) : Type 0 where
  pub major_digits : All IsDigit major
  pub major_length : length major ≤ 15
  pub minor_digits : All IsDigit minor
  pub minor_length : length minor ≤ 2

module _ (major minor : Text) (h : AreAccepted major minor) where
  whole_int : parse_int (default_zero major) ≡ some (pos (value 0 major))
  whole_int =
      let bound =
        value-lt (default_zero major) 15 0 ((default_zero-digits major).0 h.major_digits)
          ((length-default_zero major).1 h.major_length) in
      parse_int-digits (default_zero major) (default_zero-ne-nil major)
        ((default_zero-digits major).0 h.major_digits) (omega arith)
      ∙ ap (λ n. some (pos n)) (value-default_zero major)

  major-lt : value 0 major < 10 ^ 15
  major-lt = omega (arith, value-lt major 15 0 h.major_digits h.major_length)

  minor-lt : hundredths minor < 100
  minor-lt =
      let (two, digits, same) = pad_minor_lem minor h.minor_length in
      omega (arith, value-lt (pad_minor 2 minor) 2 0 (digits.0 h.minor_digits))

  cents_int : parse_int (pad_minor 2 minor) ≡ some (pos (hundredths minor))
  cents_int =
      let (two, digits, same) = pad_minor_lem minor h.minor_length in
      parse_int-digits (pad_minor 2 minor) (ne-nil_of_length (pad_minor 2 minor) two)
        (digits.0 h.minor_digits) (rw same (omega (arith, minor-lt)))
      ∙ ap (λ n. some (pos n)) same

  parts_are_digits :
      (is_digits (default_zero major) ≡ true) × (is_digits (pad_minor 2 minor) ≡ true)
  parts_are_digits =
      let (two, digits, same) = pad_minor_lem minor h.minor_length in
      (
        (is_digits_iff (default_zero major) (default_zero-ne-nil major)).1
            ((default_zero-digits major).0 h.major_digits),
        (is_digits_iff (pad_minor 2 minor) (ne-nil_of_length (pad_minor 2 minor) two)).1
            (digits.0 h.minor_digits),
      )

module _ (s : Text) (negative : Bool) (major minor : Text) where
  -- Accepted parts give their exact amount.
  pub parse_parts-ok :
      AreAccepted major minor
      → parse_parts s negative major minor
        ≡ ok (signed_by negative (value 0 major * 100 + hundredths minor))
  unfolding parse_parts
  parse_parts-ok h = ground (
    arith,
    whole_int major minor h,
    cents_int major minor h,
    parts_are_digits major minor h,
    (length-default_zero major).1 h.major_length,
    total_cents-exact negative (value 0 major) (hundredths minor) (major-lt major minor h)
        (minor-lt major minor h),
  )

  -- Nothing else is accepted.
  pub parse_parts-AreAccepted :
      (m : ℤ) → parse_parts s negative major minor ≡ ok m → AreAccepted major minor
  unfolding parse_parts
  parse_parts-AreAccepted m h =
      let whole = is_digits_iff (default_zero major) (default_zero-ne-nil major) in
      let short : length minor ≤ 2 = ground arith in
      let (two, digits, same) = pad_minor_lem minor short in
      let padded = is_digits_iff (pad_minor 2 minor) (ne-nil_of_length (pad_minor 2 minor) two) in
      record {
        major_digits = (default_zero-digits major).1 (whole.0 (ground arith));
        major_length = (length-default_zero major).0 (ground arith);
        minor_digits = digits.1 (padded.0 (ground arith));
        minor_length = short;
      }
