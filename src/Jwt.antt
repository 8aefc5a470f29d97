-- ===== src/Jwt.antt =====
-- pkg/jwt/jwt.go: the manager of access tokens over the library golang-jwt.
-- An instant is a number of nanoseconds; the library reads the clock when it parses.
pub mod Golang
pub mod Tokens
pub mod Plain
mod Tests
use checkout_saga.Common.{
  ◌≡◌, Bool, not, ◌||◌, true, false, List, [], ◌∷◌, Option, none, some, if◌then◌else◌,
}
use checkout_saga.Common.Int.{ℤ, ◌+ℤ◌}
use checkout_saga.Common.Text.{Text, codes, is_empty}
use checkout_saga.GoError.{
  Error, base, wrap_both, plain, lit, shown, invalid_token, Result, ok, err, annotate,
}
use checkout_saga.Jwt.Golang.{Claims, Token, TokenLibrary, hs256}

-- jwt.Manager, as NewManager builds it
pub record Manager : Type 0 where
  pub secret : Text
  pub expiry : ℤ

-- The keyFunc of Parse: no key for a token whose method is not HMAC.
abbrev pub key_func : Manager → Token → Result Text
key_func m token =
    if token.is_hmac
    then ok m.secret
    else err
        (plain (lit "jwt.Manager.Parse: unexpected signing method: " ∷ shown token.algorithm ∷ []))

-- The checks of Parse on the token; `none` is a failed type assertion.
abbrev pub claimed_subject : Bool → Option Claims → Result Text
claimed_subject valid none = err (base invalid_token)
claimed_subject valid (some claims) =
    if not valid || is_empty claims.subject then err (base invalid_token) else ok claims.subject

-- Parse behind ParseWithClaims.
abbrev pub subject_of : Result Token → Result Text
subject_of (err e) = err (wrap_both (base invalid_token) e)
subject_of (ok token) = claimed_subject token.valid token.claims

module _ (lib : TokenLibrary) where
  -- Manager.Generate
  unfoldable pub generate : Manager → Text → ℤ → Result Text
  generate m user_id now = annotate "jwt.Manager.Generate: sign: " (
      lib.sign_hs256
        (record {
          subject = user_id;
          issued_at = some (lib.numeric_date now);
          expires_at = some (lib.numeric_date (now +ℤ m.expiry));
        })
        m.secret)

  -- Manager.Parse, at the instant `now`
  unfoldable pub parse : Manager → ℤ → Text → Result Text
  parse m now token = subject_of (lib.parse_with_claims now token (key_func m) (hs256 ∷ []))
