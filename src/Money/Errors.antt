-- ===== src/Money/Errors.antt =====
-- Every failure of ParseMoney and of UnmarshalJSON is an ErrInvalidMoney.
use checkout_saga.Common.{◌≡◌, Bool, true, arith}
use checkout_saga.Common.Text.{Text}
use checkout_saga.GoError.{Error, Sentinel, base, err, is_error, invalid_money}
use checkout_saga.Money.{parse_parts, parse_money, unmarshal_json}

parse_parts-is_error :
    (k : Sentinel) (s : Text) (negative : Bool) (major minor : Text) (e : Error)
    → parse_parts s negative major minor ≡ err e
    → is_error k e ≡ is_error k (base invalid_money)
unfolding parse_parts is_error
parse_parts-is_error k s negative major minor e h = ground arith

-- An error of ParseMoney is ErrInvalidMoney and nothing else.
pub parse_money-is_error :
    (k : Sentinel) (s : Text) (e : Error)
    → parse_money s ≡ err e
    → is_error k e ≡ is_error k (base invalid_money)
unfolding parse_money is_error
parse_money-is_error k s e h = grind (arith, parse_parts-is_error k s)

-- Every error of Money.UnmarshalJSON is ErrInvalidMoney for errors.Is.
unmarshal_json-is_error :
    (raw : Text) (e : Error) → unmarshal_json raw ≡ err e → is_error invalid_money e ≡ true
unfolding unmarshal_json is_error
unmarshal_json-is_error raw e h = grind (arith, parse_money-is_error invalid_money)
