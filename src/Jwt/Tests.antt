-- ===== src/Jwt/Tests.antt =====
-- Tokens of the readable library, and the theorems on pkg/jwt at them.
use checkout_saga.Common.{◌≡◌, refl, [], ◌∷◌}
use checkout_saga.Common.Int.{pos}
use checkout_saga.Common.Text.{Text}
use checkout_saga.GoError.{foreign, base, wrap_both, invalid_token, ok, err}
use checkout_saga.Jwt.{Manager, parse}
use checkout_saga.Jwt.Tokens.{IsGenuine, parse-IsGenuine}
use checkout_saga.Jwt.Plain.{library, library-IsTokenLibrary}

abbrev manager : Manager
manager = record { secret = b'k' ∷ []; expiry = pos 60 }

-- The user "u", at 0.
abbrev issued : Text
issued = b'k' ∷ 0 ∷ 60 ∷ b'u' ∷ []

read_back : parse library manager (pos 59) issued ≡ ok (b'u' ∷ [])
unfolding parse
read_back = refl

expired :
    parse library manager (pos 60) issued ≡ err (wrap_both (base invalid_token) (foreign "expired"))
unfolding parse
expired = refl

-- A token of the same user with no expiry.
unlimited : parse library manager (pos 1000000) (b'k' ∷ 0 ∷ 0 ∷ b'u' ∷ []) ≡ ok (b'u' ∷ [])
unfolding parse
unlimited = refl

parse-IsGenuine_example : IsGenuine library manager (pos 59) issued (b'u' ∷ [])
parse-IsGenuine_example =
    parse-IsGenuine library library-IsTokenLibrary manager (pos 59) issued (b'u' ∷ []) read_back
