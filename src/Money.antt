-- ===== src/Money.antt =====
-- internal/order/entity/money.go: exact amounts in cents, as an int64.
-- Go's int64 is the integer that it holds, with `wrap64` behind each operation. isDigits walks runes
-- in the source and bytes here: a rune outside ASCII is no digit, and neither are its bytes.
pub mod Grammar
pub mod Pieces
pub mod Parsing
pub mod Denotation
pub mod RoundTrip
pub mod Json
pub mod Readable
pub mod Errors
mod Tests
use checkout_saga.Common.{
  ℕ, String, zero, suc, ◌+◌, ◌-◌, ◌*◌, ◌/◌, ◌%◌, Bool, true, false, not, ◌||◌, Option, none, some,
  List, [], ◌∷◌, ◌++◌, length, ltb, if◌then◌else◌, ◌^◌, ◌==◌, reverse,
}
use checkout_saga.Common.Int.{
  ℤ, pos, negsuc, neg, pos_part, neg_part, ltb_ℤ, min_int64, wrap64, ◌+ℤ◌, ◌*ℤ◌,
}
use checkout_saga.Common.Text.{Text, codes, is_empty, text_eq, has_prefix, trim_prefix, cut}
use checkout_saga.Common.Text.Trim.{trim_space}
use checkout_saga.Common.Decimal.{decimal, decimal2, all_digits, parse_int}
use checkout_saga.GoError.{
  Error, base, wrap, lit, quoted, invalid_money, Result, ok, err, ◌>>=◌, annotate,
}

abbrev pub Money : Type 0
Money = ℤ

-- _minorUnits
abbrev pub minor_units : ℕ
minor_units = 100

-- _maxMajorDigits
abbrev pub max_major_digits : ℕ
max_major_digits = 15

-- isDigits
unfoldable pub is_digits : Text → Bool
is_digits [] = false
is_digits (c ∷ s) = all_digits (c ∷ s)

abbrev pub invalid : String → Text → String → Error
invalid before s after = wrap [] (base invalid_money) (lit before ∷ quoted s ∷ lit after ∷ [])

-- The sign is taken off in this order: first one "+", then one "-".
unfoldable pub unsign : Text → Text
unsign raw = trim_prefix (trim_prefix raw (b'+' ∷ [])) (b'-' ∷ [])

-- `if majorPart == "" { majorPart = "0" }`
abbrev pub default_zero : Text → Text
default_zero [] = b'0' ∷ []
default_zero (c ∷ s) = c ∷ s

-- `for len(minorPart) < 2 { minorPart += "0" }`: two rounds are enough (`pad_minor_lem`).
unfoldable pub pad_minor : ℕ → Text → Text
pad_minor zero minor = minor
pad_minor (suc rounds) minor =
    let longer = pad_minor rounds (minor ++ b'0' ∷ []) in
    if ltb (length minor) 2 then longer else minor

-- The error of strconv.ParseInt is replaced.
abbrev pub or_invalid : Text → Option ℤ → Result ℤ
or_invalid s none = err (invalid ": " s "")
or_invalid s (some z) = ok z

-- `total := major*_minorUnits + minor; if negative { total = -total }`, in int64
unfoldable pub total_cents : Bool → ℤ → ℤ → Money
total_cents negative major minor =
    let total = wrap64 (wrap64 (major *ℤ pos minor_units) +ℤ minor) in
    if negative then wrap64 (neg total) else total

-- The checks and conversions from `strings.Cut` on; `s` is the whole input, for the messages.
unfoldable pub parse_parts : Text → Bool → Text → Text → Result Money
parse_parts s negative major_part minor_part =
    let whole = default_zero major_part in
    let cents = pad_minor 2 minor_part in
    if ltb max_major_digits (length whole)
    then err (invalid ": " s " is too large")
    else if ltb 2 (length minor_part)
    then err (invalid ": " s " has more than 2 decimal places")
    else if not (is_digits whole) || not (is_digits cents)
    then err (invalid ": " s " is not a decimal number")
    else do
      major ← or_invalid s (parse_int whole)
      minor ← or_invalid s (parse_int cents)
      ok (total_cents negative major minor)

-- ParseMoney
unfoldable pub parse_money : Text → Result Money
parse_money s =
    let raw = trim_space s in
    let (major_part, minor_part) = cut b'.' (unsign raw) in
    if is_empty raw
    then err (wrap [] (base invalid_money) (lit ": empty string" ∷ []))
    else parse_parts s (has_prefix raw (b'-' ∷ [])) major_part minor_part

-- fmt.Sprintf("%s%d.%02d", sign, value/_minorUnits, value%_minorUnits)
unfoldable pub format_cents : Text → ℕ → Text
format_cents sign value =
    sign ++ (decimal (value / minor_units) ++ (b'.' ∷ decimal2 (value % minor_units)))

-- Money.String
unfoldable pub money_string : Money → Text
money_string (pos n) = format_cents [] n
money_string (negsuc n) =
    if n == 2 ^ 63 - 1 then codes "-92233720368547758.08" else format_cents (b'-' ∷ []) (suc n)

-- Money.Mul
unfoldable pub mul : Money → ℤ → Money
mul m quantity = wrap64 (m *ℤ quantity)

-- Money.MarshalJSON: encoding/json quotes a text of digits, signs and points unchanged.
unfoldable pub marshal_json : Money → Text
marshal_json m = b'"' ∷ (money_string m ++ b'"' ∷ [])

drop_quotes : Text → Text
drop_quotes [] = []
drop_quotes (c ∷ s) = elim (c == b'"') [ true ↦ drop_quotes s | false ↦ c ∷ s ]

-- strings.Trim(s, "\"")
unfoldable pub trim_quotes : Text → Text
unfolding drop_quotes
trim_quotes s = reverse (drop_quotes (reverse (drop_quotes s)))

-- Money.UnmarshalJSON, from the raw bytes of the JSON value to the amount that it stores
unfoldable pub unmarshal_json : Text → Result Money
unfolding codes text_eq
unmarshal_json raw =
    let text = trim_quotes (trim_space raw) in
    if text_eq text (codes "null")
    then err (wrap [] (base invalid_money) (lit ": null" ∷ []))
    else parse_money text
