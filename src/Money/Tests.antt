-- ===== src/Money/Tests.antt =====
-- The cases of internal/order/entity/order_test.go for Money, evaluated, and the instances of the
-- theorems.
use checkout_saga.Common.{◌^◌, ◌<◌, ◌↔◌, some, arith, ◌≡◌, refl, [], ◌∷◌, ◌++◌}
use checkout_saga.Common.Int.{pos, negsuc, ◌+ℤ◌, ◌*ℤ◌, wrap64}
use checkout_saga.Common.Text.{codes, has_prefix, trim_prefix, cut, text_eq}
use checkout_saga.Common.Text.Trim.{trim_space}
use checkout_saga.Common.Decimal.{decimal, decimal2, all_digits, parse_int}
use checkout_saga.Money.Grammar.{Sign, Numeral}
use checkout_saga.Money.Denotation.{Denotes, parse_money_iff}
use checkout_saga.Money.RoundTrip.{magnitude}
use checkout_saga.Money.Readable.{parse_money-money_string_iff}
use checkout_saga.Money.Json.{unmarshal_json-marshal_json}
use checkout_saga.GoError.{ok, err, base, wrap, lit, quoted, invalid_money}
use checkout_saga.Money.{
  unsign, is_digits, pad_minor, total_cents, parse_parts, parse_money, money_string, format_cents,
  marshal_json, trim_quotes, unmarshal_json,
}

runs : Unit {0}
unfolding parse_money trim_space cut unsign trim_prefix has_prefix parse_parts is_digits pad_minor
    all_digits parse_int total_cents wrap64 ◌+ℤ◌ ◌*ℤ◌ codes money_string format_cents decimal
    decimal2 marshal_json unmarshal_json trim_quotes text_eq
runs = tt

accepted :
    (parse_money (codes "10.50") ≡ ok (pos 1050))
    × (parse_money (codes "10.5") ≡ ok (pos 1050))
    × (parse_money (codes "10") ≡ ok (pos 1000))
    × (parse_money (codes " 7.25 ") ≡ ok (pos 725))
    × (parse_money (codes ".99") ≡ ok (pos 99))
    × (parse_money (codes "+3.00") ≡ ok (pos 300))
    × (parse_money (codes "-3.01") ≡ ok (negsuc 300))
    × (parse_money (codes "0.10") ≡ ok (pos 10))
unfolding runs
accepted = (refl, refl, refl, refl, refl, refl, refl, refl)

rejected :
    (parse_money (codes "abc")
      ≡ err (
          wrap []
            (base invalid_money)
            (lit ": " ∷ quoted (codes "abc") ∷ lit " is not a decimal number" ∷ [])))
    × (parse_money (codes "") ≡ err (wrap [] (base invalid_money) (lit ": empty string" ∷ [])))
    × (parse_money (codes "10.555")
        ≡ err (
            wrap []
              (base invalid_money)
              (lit ": " ∷ quoted (codes "10.555") ∷ lit " has more than 2 decimal places" ∷ [])))
unfolding runs
rejected = (refl, refl, refl)

printed :
    (money_string (pos 1005) ≡ codes "10.05")
    × (money_string (pos 0) ≡ codes "0.00")
    × (money_string (pos 9) ≡ codes "0.09")
    × (money_string (negsuc 1249) ≡ codes "-12.50")
unfolding runs
printed = (refl, refl, refl, refl)

-- A JSON string and a JSON number.
json_forms :
    (unmarshal_json (codes "10.10") ≡ ok (pos 1010))
    × (marshal_json (pos 1010) ≡ b'"' ∷ (codes "10.10" ++ b'"' ∷ []))
unfolding runs
json_forms = (refl, refl)

-- The text "+-5.00", which the parser takes for 5.00.
abbrev five : Numeral
five = record { sign = Sign.plus_minus; whole = b'5' ∷ []; fraction = some (b'0' ∷ (b'0' ∷ [])) }

parse_money_iff_example :
    (parse_money (codes "+-5.00") ≡ ok (pos 500)) ↔ Denotes (trim_space (codes "+-5.00")) (pos 500)
parse_money_iff_example = parse_money_iff (codes "+-5.00") (pos 500)

plus_minus : parse_money (codes "+-5.00") ≡ ok (pos 500)
unfolding runs
plus_minus = refl

-- Neither text has a digit.
no_digits : (parse_money (codes ".") ≡ ok (pos 0)) × (parse_money (codes "-") ≡ ok (pos 0))
unfolding runs
no_digits = (refl, refl)

parse_money-money_string_iff_example :
    (parse_money (money_string (negsuc 1249)) ≡ ok (negsuc 1249))
    ↔ ((magnitude (negsuc 1249) < 10 ^ 17) × (negsuc 1249 ≡ negsuc 1249))
parse_money-money_string_iff_example = parse_money-money_string_iff (negsuc 1249) (negsuc 1249)

unmarshal_json-marshal_json_example :
    (unmarshal_json (marshal_json (pos 1010)) ≡ ok (pos 1010))
    × (unmarshal_json (money_string (pos 1010)) ≡ ok (pos 1010))
unmarshal_json-marshal_json_example = unmarshal_json-marshal_json (pos 1010) (omega arith)

null_error : unmarshal_json (codes "null") ≡ err (wrap [] (base invalid_money) (lit ": null" ∷ []))
unfolding runs
null_error = refl
