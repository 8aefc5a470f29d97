-- ===== src/Common/Family.antt =====
-- Families indexed by numbers: one member replaced, and the sum of a measure over the first members.
use Prim.Native.Nat.{ℕ, zero, suc, ◌+◌, ◌*◌, ◌≤◌, ◌<◌}
use mathlib.Core.Path.{◌≡◌, refl}
use mathlib.Core.Logic.{◌≢◌, ◌⊎◌, inl, inr, ite}
use native.Mathlib.Decide.{ℕ_discrete, dec_lt}
use native.Mathlib.Omega.{arith}

abbrev pub update {ℓ} : {A : Type ℓ} → (ℕ → A) → ℕ → A → ℕ → A
update f i a j = ite (ℕ_discrete i j) a (f j)

module _ {ℓ} {A : Type ℓ} (f : ℕ → A) (i : ℕ) (a : A) where
  pub update_same : update f i a i ≡ a
  update_same = grind arith

  pub update_other : (j : ℕ) → i ≢ j → update f i a j ≡ f j
  update_other j ne = grind arith

  -- A member of the new family is the new one, or it was there before.
  pub update-cases :
      (j : ℕ) (b : A) → update f i a j ≡ b → ((i ≡ j) × (a ≡ b)) ⊎ ((i ≢ j) × (f j ≡ b))
  update-cases j b e = elim (ℕ_discrete i j) [
    | yes same ↦ inl (same, grind arith)
    | no other ↦ inr (other, grind arith)
  ]

module _ {ℓ} {A : Type ℓ} (measure : A → ℕ) where
  -- The sum of the measures of members 0 to n - 1.
  abbrev pub sum_below : ℕ → (ℕ → A) → ℕ
  sum_below zero f = 0
  sum_below (suc n) f = measure (f n) + sum_below n f

  pub sum_below-untouched :
      (n : ℕ) (f : ℕ → A) (i : ℕ) (a : A) → n ≤ i → sum_below n (update f i a) ≡ sum_below n f
  sum_below-untouched zero f i a out = refl
  sum_below-untouched (suc n) f i a out =
      grind (arith, sum_below-untouched n f i a, update_other f i a n)

  -- A member that gets smaller makes the sum smaller.
  pub sum_below-update :
      (n : ℕ) (f : ℕ → A) (i : ℕ) (a : A)
      → i < n
      → measure a < measure (f i)
      → sum_below n (update f i a) < sum_below n f
  sum_below-update zero f i a lt less = absurd (omega arith)
  sum_below-update (suc n) f i a lt less = elim (dec_lt i n) [
    | yes below ↦ grind (arith, sum_below-update n f i a below less, update_other f i a n)
    | no last ↦ grind (arith, sum_below-untouched n f i a, update_same f i a)
  ]

  pub sum_below-constant : (n : ℕ) (a : A) → sum_below n (λ _. a) ≡ measure a * n
  sum_below-constant zero a = omega arith
  sum_below-constant (suc n) a = omega (arith, sum_below-constant n a)
