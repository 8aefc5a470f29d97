-- ===== src/Repo/Interleaving/Shared/Pool.antt =====
-- The pool of the server in memory has the laws of `Interleaving.Server`.
use native.Mathlib.Decide.{ℕ_discrete}
use checkout_saga.Common.{
  ◌≡◌, refl, sym, ap, ℕ, ◌<◌, Bool, true, false, Bool-cases, List, [], ◌∷◌, Option, none, some,
  some-injective, length, ltb, arith, inl, inr,
}
use checkout_saga.Common.Family.{update, update_same}
use checkout_saga.Common.Text.{Text}
use checkout_saga.GoError.{Result, ok, err}
use checkout_saga.Repo.Driver.{OrderRow, ItemArgs}
use checkout_saga.Repo.Interleaving.Server.{Own, IsPool}
use checkout_saga.Repo.Interleaving.Shared.{
  begin_if, Shared, shared, owns, holds, remove, insert_into, fill,
}
use checkout_saga.Repo.Interleaving.Shared.Laws.{no_orders}

holds-remove : (i : ℕ) (l : List ℕ) → holds (remove i l) ≡ update (holds l) i false
unfolding remove
holds-remove i l k j = go l j k
  where
    go : (l : List ℕ) (j : ℕ) → holds (remove i l) j ≡ update (holds l) i false j
    go [] j = grind arith
    go (x ∷ l) j = elim (ℕ_discrete i x) [
      | yes here ↦ grind (arith, go l j)
      | no other ↦ grind (arith, go l j)
    ]

begin_if-waits :
    (i : ℕ) (s : Shared)
    → begin_if (ltb s.spare (length s.connections)) i s ≡ none
    → (j : ℕ) × (holds s.connections j ≡ true)
begin_if-waits i s h = go s.connections (elim (Bool-cases (ltb s.spare (length s.connections))) [
  | inl full ↦ ground arith
  | inr free ↦ cc (ap (λ b. begin_if b i s) free, h)
])
  where
    go : (l : List ℕ) → 0 < length l → (j : ℕ) × (holds l j ≡ true)
    go [] lt = absurd (omega (arith, lt))
    go (j ∷ l) lt = (j, update_same (holds l) j true)

begin_if-some :
    (i : ℕ) (s s' : Shared) (r : Result (Unit {0})) (full : Bool)
    → begin_if full i s ≡ some (r, s')
    → (r ≡ ok tt) × (holds s'.connections ≡ update (holds s.connections) i true)
begin_if-some i s s' r true h = cc
begin_if-some i s s' r false h = (
  ap (λ p. p.0) (sym (some-injective h)),
  ap (λ p. holds p.1.connections) (sym (some-injective h)),
)

insert_into-keeps :
    (found : Option OrderRow) (other : Option Own) (i : ℕ) (u t st k : Text) (s s' : Shared)
    (r : Result Text)
    → insert_into found other i u t st k s ≡ some (r, s')
    → holds s'.connections ≡ holds s.connections
unfolding insert_into
insert_into-keeps (some row) other i u t st k s s' r h =
    ap (λ p. holds p.1.connections) (sym (some-injective h))
insert_into-keeps none (some w) i u t st k s s' r h = cc
insert_into-keeps none none i u t st k s s' r h =
    ap (λ p. holds p.1.connections) (sym (some-injective h))

fill-keeps :
    (o : Option Own) (i : ℕ) (id : Text) (args : List ItemArgs) (s : Shared)
    → holds (fill o i id args s).connections ≡ holds s.connections
unfolding fill
fill-keeps none i id args s = refl
fill-keeps (some w) i id args s = refl

-- The laws, and no call holds a connection at first.
pub shared_pool : (pool : IsPool shared) × ((j : ℕ) → pool.connected no_orders j ≡ false)
unfolding shared
shared_pool = (
  record {
    connected = λ s. holds s.connections;
    begin_takes = λ i s s' h. (begin_if-some i s s' (ok tt) _ h).1;
    begin_fails = λ i s s' e h. let bad = (begin_if-some i s s' (err e) _ h).0 in cc;
    begin_waits = λ i s h. begin_if-waits i s h;
    insert_keeps = λ i u t st k s s' r h. insert_into-keeps _ _ i u t st k s s' r h;
    batch_keeps = λ i id args s. fill-keeps (owns s.written i) i id args s;
    commit_frees = λ i s. holds-remove i s.connections;
    rollback_frees = λ i s. holds-remove i s.connections;
  },
  λ j. refl,
)
