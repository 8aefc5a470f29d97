-- ===== src/Repo/Interleaving/Shared/Holder.antt =====
-- The search for another transaction that has written a key, and the ids that are written.
use native.Mathlib.Decide.{ℕ_discrete}
use checkout_saga.Common.{
  ℕ, ◌≡◌, ◌≢◌, refl, sym, ap, ◌∙◌, subst, true, List, [], ◌∷◌, Option, none, some, length,
  length-append, arith, if◌then◌else◌, inl, inr, ◌≤◌, ◌⊎◌, some-injective,
}
use checkout_saga.Common.Family.{update-cases}
use checkout_saga.Common.Text.{Text, text_eq, text_eq_iff}
use checkout_saga.Repo.Interleaving.Server.{Own}
use checkout_saga.Repo.Interleaving.Shared.{owns, own_ids, has_key, or_else, holder}

pub own_ids-le :
    (written : List (ℕ × Option Own)) (j : ℕ) (w : Own)
    → owns written j ≡ some w
    → length w.row.id ≤ length (own_ids written)
unfolding own_ids
own_ids-le [] j w h = cc
own_ids-le ((k, o) ∷ written) j w h = elim (update-cases (owns written) k o j (some w) h) [
  | inl (here, is) ↦ go o is
  | inr (other, there) ↦ more o (own_ids-le written j w there)
]
  where
    go : (o : Option Own) → o ≡ some w → length w.row.id ≤ length (own_ids ((k, o) ∷ written))
    go none e = cc
    go (some v) e =
        let same : v ≡ w = some-injective e in
        omega
          (arith, length-append v.row.id (own_ids written), ap (λ (x : Own). length x.row.id) same)

    more :
        (o : Option Own)
        → length w.row.id ≤ length (own_ids written)
        → length w.row.id ≤ length (own_ids ((k, o) ∷ written))
    more none le = le
    more (some v) le = omega (arith, le, length-append v.row.id (own_ids written))

has_key-none :
    (key : Text) (o : Option Own) (w : Own)
    → has_key key o ≡ none
    → o ≡ some w
    → w.row.idempotency_key ≢ key
has_key-none key none w h e same = cc
has_key-none key (some v) w h e same =
    let eq : v ≡ w = some-injective e in
    let is_key : text_eq v.row.idempotency_key key ≡ true =
      (text_eq_iff v.row.idempotency_key key).1
        (ap (λ (x : Own). x.row.idempotency_key) eq ∙ same) in
    cc (ap (λ b. if b then some v else none) is_key, h)

has_key-some :
    (key : Text) (o : Option Own) (w : Own)
    → has_key key o ≡ some w
    → (o ≡ some w) × (w.row.idempotency_key ≡ key)
has_key-some key none w h = cc
has_key-some key (some v) w h = ground (arith, text_eq_iff v.row.idempotency_key key)

holder-cons :
    (i k : ℕ) (key : Text) (own : ℕ → Option Own) (o : Option Own) (written : List (ℕ × Option Own))
    → ((i ≡ k) × (holder i key own ((k, o) ∷ written) ≡ holder i key own written))
      ⊎ ((i ≢ k)
          × (holder i key own ((k, o) ∷ written)
              ≡ or_else (has_key key (own k)) (holder i key own written)))
unfolding holder
holder-cons i k key own o written = elim (ℕ_discrete i k) [
  | yes here ↦ inl (here, grind arith)
  | no other ↦ inr (other, grind arith)
]

or_else-none : (a rest : Option Own) → or_else a rest ≡ none → (a ≡ none) × (rest ≡ none)
or_else-none none rest h = (refl, h)
or_else-none (some w) rest h = cc

or_else-some :
    (a rest : Option Own) (w : Own) → or_else a rest ≡ some w → (a ≡ some w) ⊎ (rest ≡ some w)
or_else-some none rest w h = inr h
or_else-some (some v) rest w h = inl h

pub holder-none :
    (i j : ℕ) (key : Text) (own : ℕ → Option Own) (written : List (ℕ × Option Own)) (w v : Own)
    → holder i key own written ≡ none
    → i ≢ j
    → owns written j ≡ some v
    → own j ≡ some w
    → w.row.idempotency_key ≢ key
holder-none i j key own [] w v h ne occurs e = cc
holder-none i j key own ((k, o) ∷ written) w v h ne occurs e =
    elim (update-cases (owns written) k o j (some v) occurs) [
      | inl (here, is) ↦ elim (holder-cons i k key own o written) [
        | inl (mine, same) ↦ absurd (ne (mine ∙ here))
        | inr (other, same) ↦
            has_key-none key (own j) w
              (subst (λ m. has_key key (own m) ≡ none) here
                (or_else-none (has_key key (own k)) (holder i key own written) (sym same ∙ h)).0)
              e
      ]
      | inr (other, there) ↦ elim (holder-cons i k key own o written) [
        | inl (mine, same) ↦ holder-none i j key own written w v (sym same ∙ h) ne there e
        | inr (_, same) ↦
            holder-none i j key own written w v
              (or_else-none (has_key key (own k)) (holder i key own written) (sym same ∙ h)).1 ne
              there e
      ]
    ]

pub holder-some :
    (i : ℕ) (key : Text) (own : ℕ → Option Own) (written : List (ℕ × Option Own)) (w : Own)
    → holder i key own written ≡ some w
    → (j : ℕ) × (i ≢ j) × (own j ≡ some w) × (w.row.idempotency_key ≡ key)
unfolding holder
holder-some i key own [] w h = cc
holder-some i key own ((k, o) ∷ written) w h = elim (holder-cons i k key own o written) [
  | inl (mine, same) ↦ holder-some i key own written w (sym same ∙ h)
  | inr (other, same) ↦
      elim (or_else-some (has_key key (own k)) (holder i key own written) w (sym same ∙ h)) [
        | inl held ↦ let (e, is_key) = has_key-some key (own k) w held in (k, other, e, is_key)
        | inr later ↦ holder-some i key own written w later
      ]
]
