-- ===== src/Jwt/Tokens.antt =====
-- Tokens of pkg/jwt: what Parse accepts, and that it accepts what Generate issues.
use checkout_saga.Common.{
  ◌≡◌, ◌≢◌, refl, sym, ap, ◌∙◌, subst, Bool, true, false, [], ◌∷◌, Option, none, some, arith,
}
use checkout_saga.Common.Int.{ℤ}
use checkout_saga.Common.Text.{Text, is_empty}
use checkout_saga.GoError.{Error, is_error, invalid_token, Result, ok, err}
use checkout_saga.Jwt.{Manager, key_func, claimed_subject, subject_of, parse}
use checkout_saga.Jwt.Golang.{Claims, Token, TokenLibrary, hs256, IsAlive, IsTokenLibrary}

claimed_subject-is_error :
    (valid : Bool) (claims : Option Claims) (e : Error)
    → claimed_subject valid claims ≡ err e
    → is_error invalid_token e ≡ true
unfolding is_error
claimed_subject-is_error valid none e h = ground arith
claimed_subject-is_error valid (some c) e h = ground arith

subject_of-is_error :
    (parsed : Result Token) (e : Error)
    → subject_of parsed ≡ err e
    → is_error invalid_token e ≡ true
unfolding is_error
subject_of-is_error (err e0) e h = ground arith
subject_of-is_error (ok token) e h = claimed_subject-is_error token.valid token.claims e h

-- Every error of Parse is ErrInvalidToken for errors.Is.
pub parse-is_error :
    (lib : TokenLibrary) (m : Manager) (now : ℤ) (text : Text) (e : Error)
    → parse lib m now text ≡ err e
    → is_error invalid_token e ≡ true
unfolding parse
parse-is_error lib m now text e h =
    subject_of-is_error (lib.parse_with_claims now text (key_func m) (hs256 ∷ [])) e h

key_func-secret : (m : Manager) (token : Token) (k : Text) → key_func m token ≡ ok k → k ≡ m.secret
key_func-secret m token k h = ground arith

-- What a token that Parse accepts must be: HS256 verifies it under the manager's secret, its claims name
-- the user, and it has not expired.
pub record IsGenuine (lib : TokenLibrary) (m : Manager) (now : ℤ) (text user : Text) : Type 0 where
  pub claims : Claims
  pub held : lib.claims_of text ≡ some claims
  pub subject : claims.subject ≡ user
  pub named : user ≢ []
  pub signed : lib.verifies m.secret text ≡ true
  pub alive : IsAlive now claims

claimed-subject :
    (valid : Bool) (c : Claims) (user : Text)
    → claimed_subject valid (some c) ≡ ok user
    → (c.subject ≡ user) × (is_empty user ≡ false)
claimed-subject valid c user h = ground arith

claimed_subject-some :
    (valid : Bool) (claims : Option Claims) (user : Text)
    → claimed_subject valid claims ≡ ok user
    → (c : Claims) × (claims ≡ some c)
claimed_subject-some valid none user h = cc
claimed_subject-some valid (some c) user h = (c, refl)

-- Parse returns a user id only for a token that HS256 verifies under the manager's secret, that has
-- that id, which is not empty, as its subject, and whose expiry, if it has one, has not come.
pub parse-IsGenuine :
    (lib : TokenLibrary)
    → IsTokenLibrary lib
    → (m : Manager) (now : ℤ) (text user : Text) → parse lib m now text ≡ ok user
    → IsGenuine lib m now text user
unfolding parse
parse-IsGenuine lib laws m now text user h =
    go (lib.parse_with_claims now text (key_func m) (hs256 ∷ [])) refl h
  where
    go :
        (parsed : Result Token)
        → lib.parse_with_claims now text (key_func m) (hs256 ∷ []) ≡ parsed
        → subject_of parsed ≡ ok user
        → IsGenuine lib m now text user
    go (err e) p k = cc
    go (ok token) p k =
        let (secret, key, verified) = laws.signature now text (key_func m) token p in
        let (claims, is_claims) = claimed_subject-some token.valid token.claims user k in
        let (subject, named) =
          claimed-subject token.valid claims user
            (ap (claimed_subject token.valid) (sym is_claims) ∙ k) in
        record {
          claims = claims;
          held = sym (laws.held now text (key_func m) (hs256 ∷ []) token p) ∙ is_claims;
          subject = subject;
          named = λ e. ground (arith, ap is_empty e);
          signed =
              subst (λ s. lib.verifies s text ≡ true) (key_func-secret m token secret key) verified;
          alive = laws.unexpired now text (key_func m) (hs256 ∷ []) token claims p is_claims;
        }
