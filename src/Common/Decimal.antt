-- ===== src/Common/Decimal.antt =====
-- Decimal numerals: what fmt prints for %d and %02d at a number that is not negative, and
-- strconv.ParseInt(s, 10, 64).
pub mod Laws
use checkout_saga.Common.{
  ℕ, zero, suc, ◌+◌, ◌-◌, ◌*◌, ◌/◌, ◌%◌, ◌^◌, ◌≤◌, Bool, true, false, not, ◌&&◌, Option, none, some,
  List, [], ◌∷◌, ltb, leb, ◌==◌, if◌then◌else◌,
}
use checkout_saga.Common.Int.{ℤ, pos, neg, neg_ℕ}
use checkout_saga.Common.Text.{Text}

-- One digit a round, the last one first; a numeral below ten ends the loop.
emit : ℕ → ℕ → Text → Text
emit zero n out = out
emit (suc fuel) n out =
    let rest = emit fuel (n / 10) ((b'0' + n % 10) ∷ out) in
    if ltb n 10 then (b'0' + n) ∷ out else rest

-- %d; a number has fewer digits than it counts, so the fuel is enough (`value-decimal`).
unfoldable pub decimal : ℕ → Text
unfolding emit
decimal n = emit (suc n) n []

-- %02d
unfoldable pub decimal2 : ℕ → Text
decimal2 n = if ltb n 10 then b'0' ∷ decimal n else decimal n

-- A digit's character code.
abbrev pub IsDigit : ℕ → Type 0
IsDigit code = (b'0' ≤ code) × (code ≤ b'9')

unfoldable pub is_digit : ℕ → Bool
is_digit c = leb b'0' c && leb c b'9'

unfoldable pub all_digits : Text → Bool
unfolding is_digit
all_digits [] = true
all_digits (c ∷ s) = is_digit c && all_digits s

-- The number that digits spell behind the digits of `n`, with no bound.
abbrev pub value : ℕ → Text → ℕ
value n [] = n
value n (c ∷ s) = value (n * 10 + (c - b'0')) s

-- strconv.ParseUint(s, 10, 64), its error left out
parse_uint : Text → Option ℕ
unfolding all_digits
parse_uint [] = none
parse_uint (c ∷ s) =
    if all_digits (c ∷ s) && ltb (value 0 (c ∷ s)) (2 ^ 64) then some (value 0 (c ∷ s)) else none

-- The cut-off of strconv.ParseInt: 2 ^ 63 itself is in range with a minus sign only.
in_range : Bool → Option ℕ → Option ℤ
in_range negative none = none
in_range true (some n) = if leb n (2 ^ 63) then some (neg_ℕ n) else none
in_range false (some n) = if ltb n (2 ^ 63) then some (pos n) else none

unfoldable pub parse_int : Text → Option ℤ
unfolding parse_uint in_range
parse_int [] = none
parse_int (c ∷ s) =
    if c == b'+'
    then in_range false (parse_uint s)
    else if c == b'-'
    then in_range true (parse_uint s)
    else in_range false (parse_uint (c ∷ s))
