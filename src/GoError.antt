-- ===== src/GoError.antt =====
-- Go error values: sentinels made by errors.New, wrapping by fmt.Errorf with %w, errors.Is, and a
-- result type for functions that return an error.
-- Sentinels: internal/order/entity/errors.go, pkg/jwt/jwt.go, pkg/postgres/postgres.go, and those of
-- the packages context, net/http and pgx that the source compares with.
use checkout_saga.Common.{ℕ, String, ◌≡◌, refl, Bool, true, false, ◌||◌, List, [], ◌∷◌, ◌++◌}
use checkout_saga.Common.Text.{Text}

pub data Sentinel : Type 0 where
  order_not_found invalid_order invalid_money invalid_transition : Sentinel
  invalid_token : Sentinel
  pool_not_initialized : Sentinel
  no_rows tx_closed : Sentinel
  server_closed : Sentinel
  context_canceled : Sentinel

-- A piece of an error's text: literal text of the source, a string printed by %s or by %q, a number
-- printed by %d.
pub data Part : Type 0 where
  lit : String → Part
  shown quoted : Text → Part
  number : ℕ → Part

pub data Error : Type 0 where
  base : Sentinel → Error
  -- an error that a package outside the repository made, by its text
  foreign : String → Error
  -- fmt.Errorf("before%wafter", …)
  wrap : List Part → Error → List Part → Error
  -- fmt.Errorf("%w: %w", …)
  wrap_both : Error → Error → Error
  -- fmt.Errorf with no %w, and errors.New inside a function
  plain : List Part → Error

sentinel_eq : Sentinel → Sentinel → Bool
sentinel_eq order_not_found order_not_found = true
sentinel_eq invalid_order invalid_order = true
sentinel_eq invalid_money invalid_money = true
sentinel_eq invalid_transition invalid_transition = true
sentinel_eq invalid_token invalid_token = true
sentinel_eq pool_not_initialized pool_not_initialized = true
sentinel_eq no_rows no_rows = true
sentinel_eq tx_closed tx_closed = true
sentinel_eq server_closed server_closed = true
sentinel_eq context_canceled context_canceled = true
sentinel_eq _ _ = false

-- errors.Is: some error of the tree is the sentinel.
unfoldable pub is_error : Sentinel → Error → Bool
unfolding sentinel_eq
is_error s (base t) = sentinel_eq s t
is_error s (foreign _) = false
is_error s (wrap _ e _) = is_error s e
is_error s (wrap_both e f) = is_error s e || is_error s f
is_error s (plain _) = false

sentinel_text : Sentinel → String
sentinel_text order_not_found = "order: not found"
sentinel_text invalid_order = "order: invalid"
sentinel_text invalid_money = "order: invalid money format"
sentinel_text invalid_transition = "order: invalid status transition"
sentinel_text invalid_token = "jwt: invalid token"
sentinel_text pool_not_initialized = "postgres: pool not initialized"
sentinel_text no_rows = "no rows in result set"
sentinel_text tx_closed = "tx is closed"
sentinel_text server_closed = "http: Server closed"
sentinel_text context_canceled = "context canceled"

-- `Error()`
unfoldable pub message : Error → List Part
unfolding sentinel_text
message (base s) = lit (sentinel_text s) ∷ []
message (foreign t) = lit t ∷ []
message (wrap before e after) = before ++ message e ++ after
message (wrap_both e f) = message e ++ lit ": " ∷ message f
message (plain parts) = parts

-- fmt.Errorf("before: %w", e)
abbrev pub prefixed : String → Error → Error
prefixed before e = wrap (lit before ∷ []) e []

pub data Result {ℓ} (A : Type ℓ) : Type ℓ where
  ok : A → Result A
  err : Error → Result A

pub ok-injective {ℓ} : {A : Type ℓ} {a b : A} → ok a ≡ ok b → a ≡ b
ok-injective h = cc

-- `if err != nil { return …, err }`
module _ {ℓ κ} {A : Type ℓ} {B : Type κ} where
  infixl 5 ◌>>=◌
  abbrev pub ◌>>=◌ : Result A → (A → Result B) → Result B
  err e >>= rest = err e
  ok a >>= rest = rest a

  pub >>=-eq-ok :
      (first : Result A) (rest : A → Result B) {result : B}
      → (first >>= rest) ≡ ok result
      → (a : A) × (first ≡ ok a) × (rest a ≡ ok result)
  >>=-eq-ok (err e) rest h = cc
  >>=-eq-ok (ok a) rest h = (a, refl, h)

-- `if err != nil { return …, fmt.Errorf("before: %w", err) }`
abbrev pub annotate {ℓ} : {A : Type ℓ} → String → Result A → Result A
annotate before (err e) = err (prefixed before e)
annotate before (ok a) = ok a

pub annotate-eq-ok {ℓ} :
    {A : Type ℓ} (before : String) (r : Result A) {a : A} → annotate before r ≡ ok a → r ≡ ok a
annotate-eq-ok before (ok a) h = h
annotate-eq-ok before (err e) h = cc
