-- ===== src/Jwt/Plain.antt =====
-- A token library with readable tokens: the secret, the two times, the subject. It has the laws of
-- golang-jwt.
use checkout_saga.Common.{
  zero, suc, Bool, false, Option, none, some-injective, subst, ℕ, ◌≡◌, refl, sym, ap, ◌∙◌, true,
  ◌==◌, ==_iff, [], ◌∷◌, some, arith, if◌then◌else◌, Bool-cases, inl, inr,
}
use checkout_saga.Common.Int.{ℤ, pos, negsuc, ltb_ℤ}
use checkout_saga.Common.Text.{Text}
use checkout_saga.GoError.{foreign, Result, ok, err, ok-injective}
use checkout_saga.Jwt.Golang.{Claims, Token, TokenLibrary, IsTokenLibrary}

-- The number behind an expiry; 0 is none.
abbrev pub expiry_of : ℕ → Option ℤ
expiry_of zero = none
expiry_of (suc n) = some (pos (suc n))

abbrev pub sign_at : Text → Option ℤ → Option ℤ → Text → Result Text
sign_at subject (some (pos a)) (some (pos (suc b))) (k ∷ []) = ok (k ∷ a ∷ suc b ∷ subject)
sign_at subject (some (pos a)) none (k ∷ []) = ok (k ∷ a ∷ 0 ∷ subject)
sign_at subject _ _ _ = err (foreign "unsupported")

abbrev pub sign : Claims → Text → Result Text
sign claims secret = sign_at claims.subject claims.issued_at claims.expires_at secret

-- The signature's check, and the token.
abbrev pub check : ℕ → Token → Result Text → Result Token
check k token (ok (k' ∷ [])) = if k == k' then ok token else err (foreign "signature")
check k token _ = err (foreign "signature")

abbrev pub token_of : Text → ℕ → ℕ → Token
token_of subject a b = record {
  is_hmac = true;
  algorithm = [];
  claims = some (record { subject = subject; issued_at = some (pos a); expires_at = expiry_of b });
  valid = true;
}

abbrev pub is_live : ℤ → ℕ → Bool
is_live now zero = true
is_live now (suc n) = ltb_ℤ now (pos (suc n))

abbrev pub read : ℤ → Text → (Token → Result Text) → Result Token
read now (k ∷ a ∷ b ∷ subject) key =
    if is_live now b
    then check k (token_of subject a b) (key (token_of subject a b))
    else err (foreign "expired")
read now _ key = err (foreign "malformed")

abbrev pub verifies : Text → Text → Bool
verifies (k ∷ []) (k' ∷ text) = k' == k
verifies _ _ = false

abbrev pub claims_of : Text → Option Claims
claims_of (k ∷ a ∷ b ∷ subject) = (token_of subject a b).claims
claims_of _ = none

abbrev pub library : TokenLibrary
library = record {
  numeric_date = λ t. t;
  sign_hs256 = sign;
  verifies = verifies;
  claims_of = claims_of;
  parse_with_claims = λ now text key methods. read now text key;
}

check-token :
    (k k' : ℕ) (token token' : Token) → check k token (ok (k' ∷ [])) ≡ ok token' → token ≡ token'
check-token k k' token token' h = ok-injective (ground arith)

check-key : (k k' : ℕ) (token token' : Token) → check k token (ok (k' ∷ [])) ≡ ok token' → k ≡ k'
check-key k k' token token' h = ground (arith, ==_iff k k')

check-ok :
    (k : ℕ) (token token' : Token) (secret : Result Text)
    → check k token secret ≡ ok token'
    → (token ≡ token') × (secret ≡ ok (k ∷ []))
check-ok k token token' (err e) h = cc
check-ok k token token' (ok []) h = cc
check-ok k token token' (ok (k' ∷ (c ∷ s))) h = cc
check-ok k token token' (ok (k' ∷ [])) h =
    (check-token k k' token token' h, ap (λ x. ok (x ∷ [])) (sym (check-key k k' token token' h)))

read-live :
    (now : ℤ) (k a b : ℕ) (subject : Text) (key : Token → Result Text) (token : Token)
    → read now (k ∷ a ∷ b ∷ subject) key ≡ ok token
    → (is_live now b ≡ true)
      × (check k (token_of subject a b) (key (token_of subject a b)) ≡ ok token)
read-live now k a b subject key token h = elim (Bool-cases (is_live now b)) [
  | inl alive ↦ (alive, rw alive at h)
  | inr dead ↦ cc (rw dead at h)
]

-- What reading a text has looked at.
read-ok :
    (now : ℤ) (text : Text) (key : Token → Result Text) (token : Token)
    → read now text key ≡ ok token
    → (k : ℕ) × (a : ℕ) × (b : ℕ) × (subject : Text) × (text ≡ k ∷ a ∷ b ∷ subject)
      × (is_live now b ≡ true)
      × (token_of subject a b ≡ token)
      × (key token ≡ ok (k ∷ []))
read-ok now [] key token h = cc
read-ok now (k ∷ []) key token h = cc
read-ok now (k ∷ (a ∷ [])) key token h = cc
read-ok now (k ∷ (a ∷ (b ∷ subject))) key token h =
    let (alive, checked) = read-live now k a b subject key token h in
    let (same, secret) =
      check-ok k (token_of subject a b) token (key (token_of subject a b)) checked in
    (k, a, b, subject, refl, alive, same, ap key (sym same) ∙ secret)

live-ltb :
    (now expiry : ℤ) (b : ℕ)
    → is_live now b ≡ true
    → expiry_of b ≡ some expiry
    → ltb_ℤ now expiry ≡ true
live-ltb now expiry zero live e = cc
live-ltb now expiry (suc n) live e = subst (λ x. ltb_ℤ now x ≡ true) (some-injective e) live

live_of_alive :
    (now : ℤ) (b : ℕ)
    → ((expiry : ℤ) → expiry_of b ≡ some expiry → ltb_ℤ now expiry ≡ true)
    → is_live now b ≡ true
live_of_alive now zero alive = refl
live_of_alive now (suc n) alive = alive (pos (suc n)) refl

read-signed :
    (now : ℤ) (k a b : ℕ) (subject : Text) (key : Token → Result Text)
    → ((expiry : ℤ) → expiry_of b ≡ some expiry → ltb_ℤ now expiry ≡ true)
    → ((token : Token) → token.is_hmac ≡ true → key token ≡ ok (k ∷ []))
    → read now (k ∷ a ∷ b ∷ subject) key ≡ ok (token_of subject a b)
read-signed now k a b subject key alive keyed =
    rw (live_of_alive now b alive)
      (rw (keyed (token_of subject a b) refl) (rw ((==_iff k k).1 refl) refl))

read-accepts :
    (now : ℤ) (text secret : Text) (key : Token → Result Text) (subject : Text)
    (issued expires : Option ℤ)
    → sign_at subject issued expires secret ≡ ok text
    → ((expiry : ℤ) → expires ≡ some expiry → ltb_ℤ now expiry ≡ true)
    → ((token : Token) → token.is_hmac ≡ true → key token ≡ ok secret)
    → (token : Token) × (read now text key ≡ ok token)
      × (token.claims
          ≡ some (record { subject = subject; issued_at = issued; expires_at = expires }))
      × (token.valid ≡ true)
read-accepts now text (k ∷ []) key subject (some (pos a)) (some (pos (suc b))) h alive keyed = (
  token_of subject a (suc b),
  ap (λ x. read now x key) (sym (ok-injective h))
      ∙ read-signed now k a (suc b) subject key alive keyed,
  refl,
  refl,
)
read-accepts now text (k ∷ []) key subject (some (pos a)) none h alive keyed = (
  token_of subject a 0,
  ap (λ x. read now x key) (sym (ok-injective h)) ∙ read-signed now k a 0 subject key alive keyed,
  refl,
  refl,
)
read-accepts now text secret key subject none expires h alive keyed = cc
read-accepts now text secret key subject (some (negsuc a)) expires h alive keyed = cc
read-accepts now text secret key subject (some (pos a)) (some (negsuc b)) h alive keyed = cc
read-accepts now text secret key subject (some (pos a)) (some (pos zero)) h alive keyed = cc
read-accepts now text [] key subject (some (pos a)) none h alive keyed = cc
read-accepts now text (k ∷ (c ∷ s)) key subject (some (pos a)) none h alive keyed = cc
read-accepts now text [] key subject (some (pos a)) (some (pos (suc b))) h alive keyed = cc
read-accepts now text (k ∷ (c ∷ s)) key subject (some (pos a)) (some (pos (suc b))) h alive keyed =
    cc

pub library-IsTokenLibrary : IsTokenLibrary library
library-IsTokenLibrary = record {
  signature = λ now text key token h.
      let (k, a, b, subject, is_text, live, same, secret) = read-ok now text key token h in
      (k ∷ [], secret, subst (λ t. verifies (k ∷ []) t ≡ true) (sym is_text) ((==_iff k k).1 refl));
  held = λ now text key methods token h.
      let (k, a, b, subject, is_text, live, same, secret) = read-ok now text key token h in
      ap (λ (t : Token). t.claims) (sym same) ∙ ap claims_of (sym is_text);
  unexpired = λ now text key methods token claims h is_claims expiry e.
      let (k, a, b, subject, is_text, live, same, secret) = read-ok now text key token h in
      live-ltb now expiry b live (
        ap (λ (c : Claims). c.expires_at)
          (some-injective (ap (λ (t : Token). t.claims) same ∙ is_claims))
        ∙ e);
  accepts = λ now text secret key claims h alive keyed.
      read-accepts now text secret key claims.subject claims.issued_at claims.expires_at h alive
        keyed;
}
