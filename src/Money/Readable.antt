-- ===== src/Money/Readable.antt =====
-- Which printed amounts ParseMoney reads at all: those below 10 ^ 17 cents, each as itself.
use checkout_saga.Common.{◌/◌, ◌^◌, ◌<◌, ◌≡◌, ◌↔◌, ap, ◌∙◌, sym, subst, All, arith}
use checkout_saga.Common.Int.{ℤ}
use checkout_saga.Common.Decimal.{IsDigit, value, decimal}
use checkout_saga.Common.Decimal.Laws.{value-lt, decimal-IsDigit, value-decimal}
use checkout_saga.GoError.{ok-injective, ok}
use checkout_saga.Money.{parse_money, money_string}
use checkout_saga.Money.Grammar.{spelled, digits_of}
use checkout_saga.Money.Pieces.{is_minus}
use checkout_saga.Money.Parsing.{parse_parts-AreAccepted}
use checkout_saga.Money.Denotation.{parse_money-spelled}
use checkout_saga.Money.RoundTrip.{
  printed, HasNumericEnds-ne-nil, HasNumericEnds-printed, trim_space-numeric, sign_of, magnitude,
  money_string-printed, parse_money-money_string, whole-printed,
}

-- A printed amount that is read has at most fifteen digits before the point.
magnitude-lt : (m r : ℤ) → parse_money (money_string m) ≡ ok r → magnitude m < 10 ^ 17
magnitude-lt m r h =
    let d = printed (sign_of m) (magnitude m) in
    let whole : d.whole ≡ decimal (magnitude m / 100) = whole-printed (sign_of m) (magnitude m) in
    let digits = subst (All IsDigit) (sym whole) (decimal-IsDigit (magnitude m / 100)) in
    let e = HasNumericEnds-printed (sign_of m) (magnitude m) in
    let parts =
      parse_money-spelled (spelled d) d digits (HasNumericEnds-ne-nil (spelled d) e)
        (trim_space-numeric (spelled d) e) in
    let a =
      parse_parts-AreAccepted (spelled d) (is_minus d.sign) d.whole (digits_of d.fraction) r
        (sym parts ∙ ap parse_money (sym (money_string-printed m)) ∙ h) in
    omega (
      arith,
      value-lt d.whole 15 0 a.major_digits a.major_length,
      ap (value 0) whole,
      value-decimal (magnitude m / 100),
    )

-- ParseMoney reads the text of an amount exactly when the amount is below 10^17 cents in size, and
-- reads no other amount.
pub parse_money-money_string_iff :
    (m r : ℤ) → (parse_money (money_string m) ≡ ok r) ↔ ((magnitude m < 10 ^ 17) × (r ≡ m))
parse_money-money_string_iff m r = (
  λ h.
      let small = magnitude-lt m r h in
      (small, ok-injective (sym h ∙ parse_money-money_string m small)),
  λ h. parse_money-money_string m h.0 ∙ ap ok (sym h.1),
)
