-- ===== src/Jwt/Golang.antt =====
-- What pkg/jwt uses of golang-jwt: a parameter of the model, with its documented behaviour.
use checkout_saga.Common.{◌≡◌, Bool, true, List, [], ◌∷◌, Option, some}
use checkout_saga.Common.Int.{ℤ, ltb_ℤ}
use checkout_saga.Common.Text.{Text, codes}
use checkout_saga.GoError.{Result, ok}

-- jwtv5.SigningMethodHS256.Alg()
abbrev pub hs256 : Text
unfolding codes
hs256 = codes "HS256"

-- jwtv5.RegisteredClaims, with the fields that are set or read; the times are NumericDates, and each may
-- be absent from a token.
pub record Claims : Type 0 where
  pub subject : Text
  pub issued_at : Option ℤ
  pub expires_at : Option ℤ

-- jwtv5.Token: whether its Method is a *SigningMethodHMAC, its "alg", its Claims where they are the
-- *RegisteredClaims that were passed, and its Valid.
pub record Token : Type 0 where
  pub is_hmac : Bool
  pub algorithm : Text
  pub claims : Option Claims
  pub valid : Bool

-- `verifies` is the check of HS256 on a key and a token's text, `claims_of` the registered claims that
-- the text holds.
pub record TokenLibrary : Type 0 where
  pub numeric_date : ℤ → ℤ
  pub sign_hs256 : Claims → Text → Result Text
  pub verifies : Text → Text → Bool
  pub claims_of : Text → Option Claims
  pub parse_with_claims : ℤ → Text → (Token → Result Text) → List Text → Result Token

-- No expiry, or one that has not come: without WithExpirationRequired a token needs none.
abbrev pub IsAlive : ℤ → Claims → Type 0
IsAlive now claims = (expiry : ℤ) → claims.expires_at ≡ some expiry → ltb_ℤ now expiry ≡ true

pub record IsTokenLibrary (lib : TokenLibrary) : Type 0 where
  -- a token that is accepted for one method alone has a signature that the key function's key verifies
  pub signature :
      (now : ℤ) (text : Text) (key : Token → Result Text) (token : Token)
      → lib.parse_with_claims now text key (hs256 ∷ []) ≡ ok token
      → (secret : Text) × (key token ≡ ok secret) × (lib.verifies secret text ≡ true)
  -- its claims are those of the text
  pub held :
      (now : ℤ) (text : Text) (key : Token → Result Text) (methods : List Text) (token : Token)
      → lib.parse_with_claims now text key methods ≡ ok token
      → token.claims ≡ lib.claims_of text
  -- they are validated
  pub unexpired :
      (now : ℤ) (text : Text) (key : Token → Result Text) (methods : List Text) (token : Token)
      (claims : Claims)
      → lib.parse_with_claims now text key methods ≡ ok token
      → token.claims ≡ some claims
      → IsAlive now claims
  -- a token that was signed is accepted before it expires where the key function gives its secret
  pub accepts :
      (now : ℤ) (text secret : Text) (key : Token → Result Text) (claims : Claims)
      → lib.sign_hs256 claims secret ≡ ok text
      → IsAlive now claims
      → ((token : Token) → token.is_hmac ≡ true → key token ≡ ok secret)
      → (token : Token) × (lib.parse_with_claims now text key (hs256 ∷ []) ≡ ok token)
        × (token.claims ≡ some claims)
        × (token.valid ≡ true)
