-- ===== src/Common/Decimal/Laws.antt =====
-- Printing and reading of decimal numerals: the value, the digits and the length of what is printed,
-- and when strconv.ParseInt accepts a run of digits.
use native.Mathlib.Nat.{pow-suc, one-le-pow, mul-le-mul_right}
use checkout_saga.Common.{
  ℕ, zero, suc, ◌+◌, ◌-◌, ◌*◌, ◌/◌, ◌%◌, ◌^◌, ◌≤◌, ◌<◌, ◌≡◌, refl, ap, ◌∙◌, ◌↔◌, inl, inr, ◌≢◌,
  true, some, [], ◌∷◌, arith, length, All, ltb, Bool-cases,
}
use checkout_saga.Common.Int.{pos}
use checkout_saga.Common.Text.{Text}
use checkout_saga.Common.Decimal.{emit, decimal, decimal2, IsDigit, all_digits, value, parse_int}

emit-IsDigit : (f n : ℕ) (out : Text) → All IsDigit out → All IsDigit (emit f n out)
unfolding emit
emit-IsDigit zero n out h = h
emit-IsDigit (suc f) n out h =
    ground (arith, emit-IsDigit f (n / 10) ((b'0' + n % 10) ∷ out) ((omega arith, omega arith), h))

pub decimal-IsDigit : (n : ℕ) → All IsDigit (decimal n)
unfolding decimal
decimal-IsDigit n = emit-IsDigit (suc n) n [] tt

value-last_digit : (n : ℕ) (out : Text) → value (n / 10) ((b'0' + n % 10) ∷ out) ≡ value n out
value-last_digit n out = ap (λ m. value m out) (omega arith)

value-emit : (f n : ℕ) (out : Text) → n < f → value 0 (emit f n out) ≡ value n out
unfolding emit
value-emit zero n out h = elim h [ ]
value-emit (suc f) n out h = elim (Bool-cases (ltb n 10)) [
  | inl last ↦ rw last (ap (λ m. value m out) (ground arith))
  | inr more ↦
      rw more
        (value-emit f (n / 10) ((b'0' + n % 10) ∷ out) (ground arith) ∙ value-last_digit n out)
]

-- The numeral that %d prints spells the number.
pub value-decimal : (n : ℕ) → value 0 (decimal n) ≡ n
unfolding decimal
value-decimal n = value-emit (suc n) n [] (omega arith)

length-emit : (k f n : ℕ) (out : Text) → n < 10 ^ suc k → length (emit f n out) ≤ suc k + length out
unfolding emit
length-emit k zero n out h = omega arith
length-emit zero (suc f) n out h = ground arith
length-emit (suc k) (suc f) n out h =
    ground (arith, length-emit k f (n / 10) ((b'0' + n % 10) ∷ out), pow-suc 10 (suc k))

pub length-decimal : (k n : ℕ) → n < 10 ^ suc k → length (decimal n) ≤ suc k
unfolding decimal
length-decimal k n h = omega (arith, length-emit k (suc n) n [] h)

emit-ne-nil : (f n : ℕ) (out : Text) → out ≢ [] → emit f n out ≢ []
unfolding emit
emit-ne-nil zero n out h = h
emit-ne-nil (suc f) n out h = ground (arith, emit-ne-nil f (n / 10) ((b'0' + n % 10) ∷ out))

pub decimal-ne-nil : (n : ℕ) → decimal n ≢ []
unfolding decimal emit
decimal-ne-nil n = ground (arith, emit-ne-nil n (n / 10) ((b'0' + n % 10) ∷ []))

-- Below a hundred %02d prints the two digits of the number.
pub decimal2_digits : (n : ℕ) → n < 100 → decimal2 n ≡ (b'0' + n / 10) ∷ (b'0' + n % 10) ∷ []
unfolding decimal2 decimal emit
decimal2_digits zero h = refl
decimal2_digits (suc zero) h = refl
decimal2_digits (suc (suc n)) h = ground arith

pub all_digits_iff : (s : Text) → (all_digits s ≡ true) ↔ All IsDigit s
unfolding all_digits
all_digits_iff [] = (λ _. tt, λ _. refl)
all_digits_iff (c ∷ s) = ground (arith, all_digits_iff s)

next_place : (n d p : ℕ) → d ≤ 9 → (n * 10 + d + 1) * p ≤ (n + 1) * (p * 10)
next_place n d p h = omega (arith, mul-le-mul_right p h)

-- A run of at most `k` digits adds at most `k` places.
pub value-lt : (s : Text) (k n : ℕ) → All IsDigit s → length s ≤ k → value n s < (n + 1) * 10 ^ k
value-lt [] k n _ _ = grind (arith, one-le-pow k 10)
value-lt (c ∷ s) zero n h l = absurd (omega arith)
value-lt (c ∷ s) (suc k) n ((lo, hi), h) l = rw (pow-suc 10 k) (
    omega (
      arith,
      value-lt s k (n * 10 + (c - b'0')) h (omega arith),
      next_place n (c - b'0') (10 ^ k) (omega arith),
    ))

-- strconv.ParseInt reads a run of digits as its value, if that is below 2 ^ 63.
pub parse_int-digits :
    (s : Text) → s ≢ [] → All IsDigit s → value 0 s < 2 ^ 63 → parse_int s ≡ some (pos (value 0 s))
unfolding parse_int
parse_int-digits [] h _ _ = absurd (h refl)
parse_int-digits (c ∷ s) _ (d, ds) h = ground (arith, (all_digits_iff (c ∷ s)).1 (d, ds))
