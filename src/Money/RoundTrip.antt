-- ===== src/Money/RoundTrip.antt =====
-- Money.String, Money.MarshalJSON and Money.UnmarshalJSON against ParseMoney.
use mathlib.Core.List.{reverse-append}
use checkout_saga.Common.{
  ◌-◌, ◌==◌, ==_iff, Bool-cases, inl, inr, ℕ, suc, ◌+◌, ◌/◌, ◌%◌, ◌^◌, ◌<◌, ◌≡◌, ◌≢◌, refl, ap, ◌∙◌,
  sym, [], ◌∷◌, ◌++◌, some, length, All, reverse, arith,
}
use checkout_saga.Common.Int.{ℤ, pos, negsuc}
use checkout_saga.Common.Text.{Text, codes}
use checkout_saga.Common.Text.Trim.{trim_space, trim_space-visible}
use checkout_saga.Common.Decimal.{IsDigit, decimal, decimal2}
use checkout_saga.Common.Decimal.Laws.{
  decimal-IsDigit, decimal-ne-nil, value-decimal, length-decimal, decimal2_digits,
}
use checkout_saga.GoError.{ok}
use checkout_saga.Money.{parse_money, money_string, format_cents}
use checkout_saga.Money.Grammar.{
  Sign, bare, plus, minus, plus_minus, sign_text, Numeral, signed, spelled, cents, IsAccepted,
}
use checkout_saga.Money.Denotation.{parse_money_complete}

reverse-tail :
    (t : Text) (p x y : ℕ) → reverse (t ++ (p ∷ (x ∷ (y ∷ [])))) ≡ y ∷ (x ∷ (p ∷ reverse t))
reverse-tail t p x y = reverse-append t (p ∷ (x ∷ (y ∷ [])))

-- A sign, a point or a digit.
abbrev pub IsNumeric : ℕ → Type 0
IsNumeric c = (0x2a < c) × (c < 0x3a)

-- Both ends of a text are characters of numerals: no space, no quotation mark, no letter.
pub record HasNumericEnds (t : Text) : Type 0 where
  pub first : ℕ
  pub rest : Text
  pub last : ℕ
  pub before : Text
  pub front : t ≡ first ∷ rest
  pub back : reverse t ≡ last ∷ before
  pub first_numeric : IsNumeric first
  pub last_numeric : IsNumeric last

HasNumericEnds-spelled :
    (g : Sign) (c : ℕ) (w : Text) (x y : ℕ)
    → IsDigit c
    → IsDigit y
    → HasNumericEnds (sign_text g ++ ((c ∷ w) ++ (b'.' ∷ (x ∷ (y ∷ [])))))
HasNumericEnds-spelled bare c w x y hc hy = record {
  first = c;
  rest = w ++ (b'.' ∷ (x ∷ (y ∷ [])));
  last = y;
  before = x ∷ (b'.' ∷ reverse (c ∷ w));
  front = refl;
  back = reverse-tail (c ∷ w) b'.' x y;
  first_numeric = omega arith;
  last_numeric = omega arith;
}
HasNumericEnds-spelled plus c w x y hc hy = record {
  first = b'+';
  rest = (c ∷ w) ++ (b'.' ∷ (x ∷ (y ∷ [])));
  last = y;
  before = x ∷ (b'.' ∷ reverse (b'+' ∷ (c ∷ w)));
  front = refl;
  back = reverse-tail (b'+' ∷ (c ∷ w)) b'.' x y;
  first_numeric = omega arith;
  last_numeric = omega arith;
}
HasNumericEnds-spelled minus c w x y hc hy = record {
  first = b'-';
  rest = (c ∷ w) ++ (b'.' ∷ (x ∷ (y ∷ [])));
  last = y;
  before = x ∷ (b'.' ∷ reverse (b'-' ∷ (c ∷ w)));
  front = refl;
  back = reverse-tail (b'-' ∷ (c ∷ w)) b'.' x y;
  first_numeric = omega arith;
  last_numeric = omega arith;
}
HasNumericEnds-spelled plus_minus c w x y hc hy = record {
  first = b'+';
  rest = b'-' ∷ ((c ∷ w) ++ (b'.' ∷ (x ∷ (y ∷ []))));
  last = y;
  before = x ∷ (b'.' ∷ reverse (b'+' ∷ (b'-' ∷ (c ∷ w))));
  front = refl;
  back = reverse-tail (b'+' ∷ (b'-' ∷ (c ∷ w))) b'.' x y;
  first_numeric = omega arith;
  last_numeric = omega arith;
}

pub trim_space-numeric : (t : Text) → HasNumericEnds t → trim_space t ≡ t
trim_space-numeric t e =
    ap trim_space e.front
    ∙ trim_space-visible e.first e.rest e.last e.before (omega arith) (omega arith)
        (ap reverse (sym e.front) ∙ e.back)
    ∙ sym e.front

-- The numeral that a number of cents is printed as.
pub printed : Sign → ℕ → Numeral
printed g n = record {
  sign = g;
  whole = decimal (n / 100);
  fraction = some ((b'0' + n % 100 / 10) ∷ ((b'0' + n % 100 % 10) ∷ []));
}

spelled-printed : (g : Sign) (n : ℕ) → format_cents (sign_text g) n ≡ spelled (printed g n)
unfolding format_cents printed
spelled-printed g n = rw (decimal2_digits (n % 100) (omega arith))

cents-printed : (g : Sign) (n : ℕ) → cents (printed g n) ≡ n
unfolding printed
cents-printed g n = omega (arith, value-decimal (n / 100))

pub whole-printed : (g : Sign) (n : ℕ) → (printed g n).whole ≡ decimal (n / 100)
unfolding printed
whole-printed g n = refl

pub HasNumericEnds-printed : (g : Sign) (n : ℕ) → HasNumericEnds (spelled (printed g n))
unfolding printed
HasNumericEnds-printed g n = go (decimal (n / 100)) (decimal-ne-nil _) (decimal-IsDigit _)
  where
    go :
        (w : Text)
        → w ≢ []
        → All IsDigit w
        → HasNumericEnds
            (sign_text g ++ (w ++ (b'.' ∷ ((b'0' + n % 100 / 10) ∷ ((b'0' + n % 100 % 10) ∷ [])))))
    go [] h _ = absurd (h refl)
    go (c ∷ w) _ (hc, _) = HasNumericEnds-spelled g c w _ _ hc (omega arith)

pub HasNumericEnds-ne-nil : (t : Text) → HasNumericEnds t → t ≢ []
HasNumericEnds-ne-nil [] e = absurd (omega (arith, ap length e.front))
HasNumericEnds-ne-nil (c ∷ t) e = cc

printed-IsAccepted : (g : Sign) (n : ℕ) → n < 10 ^ 17 → IsAccepted (printed g n)
unfolding printed
printed-IsAccepted g n h = record {
  whole_digits = decimal-IsDigit (n / 100);
  whole_length = length-decimal 14 (n / 100) (omega arith);
  fraction_digits = ((omega arith, omega arith), ((omega arith, omega arith), tt));
  fraction_length = omega arith;
  nonempty = HasNumericEnds-ne-nil _ (HasNumericEnds-printed g n);
}

pub parse_money-printed :
    (g : Sign) (n : ℕ) → n < 10 ^ 17 → parse_money (spelled (printed g n)) ≡ ok (signed g n)
unfolding printed
parse_money-printed g n h =
    parse_money_complete _ (printed g n) (printed-IsAccepted g n h)
      (trim_space-numeric _ (HasNumericEnds-printed g n))
    ∙ ap (λ k. ok (signed g k)) (cents-printed g n)

abbrev pub sign_of : ℤ → Sign
sign_of (pos _) = bare
sign_of (negsuc _) = minus

abbrev pub magnitude : ℤ → ℕ
magnitude (pos n) = n
magnitude (negsuc n) = suc n

signed-magnitude : (m : ℤ) → signed (sign_of m) (magnitude m) ≡ m
signed-magnitude (pos n) = refl
signed-magnitude (negsuc n) = ground arith

min_int64-printed : codes "-92233720368547758.08" ≡ format_cents (b'-' ∷ []) (2 ^ 63)
unfolding codes format_cents decimal decimal2
min_int64-printed = refl

-- The guard at math.MinInt64 prints what the other branch would: one formula for all amounts.
pub money_string-format :
    (m : ℤ) → money_string m ≡ format_cents (sign_text (sign_of m)) (magnitude m)
unfolding money_string
money_string-format (pos n) = refl
money_string-format (negsuc n) = elim (Bool-cases (n == 2 ^ 63 - 1)) [
  | inl least ↦ rw least (
      min_int64-printed
      ∙ ap (format_cents (b'-' ∷ [])) (ap suc (sym ((==_iff n (2 ^ 63 - 1)).0 least))))
  | inr other ↦ rw other
]

-- Money.String as a numeral.
pub money_string-printed : (m : ℤ) → money_string m ≡ spelled (printed (sign_of m) (magnitude m))
money_string-printed m = money_string-format m ∙ spelled-printed (sign_of m) (magnitude m)

-- What Money.String prints is read back exactly, for every amount below 10 ^ 17 cents in size.
pub parse_money-money_string : (m : ℤ) → magnitude m < 10 ^ 17 → parse_money (money_string m) ≡ ok m
parse_money-money_string m h =
    ap parse_money (money_string-printed m)
    ∙ parse_money-printed (sign_of m) (magnitude m) h
    ∙ ap ok (signed-magnitude m)
