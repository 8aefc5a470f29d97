-- ===== src/Money/Grammar.antt =====
-- What a decimal text of ParseMoney is, stated without the parser: a sign, at most 15 digits, and
-- behind a point at most two more.
use checkout_saga.Common.{
  ℕ, ◌+◌, ◌-◌, ◌*◌, ◌≤◌, ◌≢◌, Option, none, some, [], ◌∷◌, ◌++◌, length, All,
}
use checkout_saga.Common.Int.{ℤ, pos, neg_ℕ}
use checkout_saga.Common.Text.{Text}
use checkout_saga.Common.Decimal.{IsDigit, value}

-- `plus_minus` is the two characters "+-", which the parser takes for a plus.
pub data Sign : Type 0 where
  bare plus minus plus_minus : Sign

abbrev pub sign_text : Sign → Text
sign_text bare = []
sign_text plus = b'+' ∷ []
sign_text minus = b'-' ∷ []
sign_text plus_minus = b'+' ∷ b'-' ∷ []

abbrev pub point : Option Text → Text
point none = []
point (some fraction) = b'.' ∷ fraction

abbrev pub digits_of : Option Text → Text
digits_of none = []
digits_of (some fraction) = fraction

pub record Numeral : Type 0 where
  pub sign : Sign
  pub whole : Text
  pub fraction : Option Text

abbrev pub spelled : Numeral → Text
spelled d = sign_text d.sign ++ (d.whole ++ point d.fraction)

-- A fraction of at most two digits, in hundredths.
abbrev pub hundredths : Text → ℕ
hundredths [] = 0
hundredths (a ∷ []) = (a - b'0') * 10
hundredths (a ∷ (b ∷ _)) = (a - b'0') * 10 + (b - b'0')

abbrev pub cents : Numeral → ℕ
cents d = value 0 d.whole * 100 + hundredths (digits_of d.fraction)

abbrev pub signed : Sign → ℕ → ℤ
signed minus n = neg_ℕ n
signed _ n = pos n

abbrev pub amount : Numeral → ℤ
amount d = signed d.sign (cents d)

pub record IsAccepted (d : Numeral) : Type 0 where
  pub whole_digits : All IsDigit d.whole
  pub whole_length : length d.whole ≤ 15
  pub fraction_digits : All IsDigit (digits_of d.fraction)
  pub fraction_length : length (digits_of d.fraction) ≤ 2
  pub nonempty : spelled d ≢ []
