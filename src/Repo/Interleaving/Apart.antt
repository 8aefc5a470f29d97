-- ===== src/Repo/Interleaving/Apart.antt =====
-- The keys and ids that open transactions have written: each one new, and no two the same.
use checkout_saga.Common.{
  ◌≡◌, ◌≢◌, refl, sym, ap, ◌∙◌, subst, ℕ, List, [], Option, none, some, arith, inl, inr,
}
use checkout_saga.Common.Family.{update-cases}
use checkout_saga.Common.Text.{Text, text_eq_iff}
use checkout_saga.Repo.Driver.{OrderRow, ItemRow}
use checkout_saga.Repo.Postgres.{Tables, find_key, find_id}
use checkout_saga.Repo.Interleaving.Server.{Own, View, merged, writes, commits, IsFresh}

-- A row whose key and id are not in the tables.
pub record IsNew (t : Tables) (row : OrderRow) : Type 0 where
  pub key : find_key row.idempotency_key t.orders ≡ none
  pub id : find_id row.id t.orders ≡ none

abbrev pub Differ : OrderRow → OrderRow → Type 0
Differ row other = (other.idempotency_key ≢ row.idempotency_key) × (other.id ≢ row.id)

pub record AreApart (v : View) : Type 0 where
  pub new : (i : ℕ) (w : Own) → v.own i ≡ some w → IsNew v.tables w.row
  pub apart :
      (i j : ℕ) (w w' : Own) → i ≢ j → v.own i ≡ some w → v.own j ≡ some w' → Differ w.row w'.row

module _ (v : View) (h : AreApart v) (i : ℕ) where
  pub AreApart-drop : AreApart (writes v i none)
  AreApart-drop = record {
    new = λ j w e. elim (update-cases v.own i none j (some w) e) [
      | inl (same, x) ↦ cc
      | inr (other, x) ↦ h.new j w x
    ];
    apart = λ j k w w' ne e e'. elim (update-cases v.own i none j (some w) e) [
      | inl (same, x) ↦ cc
      | inr (other, x) ↦ elim (update-cases v.own i none k (some w') e') [
        | inl (same, y) ↦ cc
        | inr (other', y) ↦ h.apart j k w w' ne x y
      ]
    ];
  }

  -- Transaction `i` gets a row that is new and differs from all others.
  AreApart-put :
      (w0 : Own)
      → IsNew v.tables w0.row
      → ((j : ℕ) (w : Own) → i ≢ j → v.own j ≡ some w → Differ w0.row w.row)
      → AreApart (writes v i (some w0))
  AreApart-put w0 fresh differs = record {
    new = λ j w e. elim (update-cases v.own i (some w0) j (some w) e) [
      | inl (same, x) ↦ subst (λ o. IsNew v.tables (get o)) x fresh
      | inr (other, x) ↦ h.new j w x
    ];
    apart = λ j k w w' ne e e'. elim (update-cases v.own i (some w0) j (some w) e) [
      | inl (same, x) ↦ elim (update-cases v.own i (some w0) k (some w') e') [
        | inl (same', y) ↦ absurd (ne (sym same ∙ same'))
        | inr (other, y) ↦ subst (λ o. Differ (get o) w'.row) x (differs k w' other y)
      ]
      | inr (other, x) ↦ elim (update-cases v.own i (some w0) k (some w') e') [
        | inl (same', y) ↦
            subst (λ o. Differ w.row (get o)) y
              (λ e. (differs j w other x).0 (sym e), λ e. (differs j w other x).1 (sym e))
        | inr (other', y) ↦ h.apart j k w w' ne x y
      ]
    ];
  }
    where
      get : Option Own → OrderRow
      get (some w) = w.row
      get none = w0.row

  pub AreApart-insert :
      (u t st k id : Text) (row : OrderRow)
      → IsFresh v i u t st k id row
      → AreApart (writes v i (some (record { row = row; lines = [] })))
  AreApart-insert u t st k id row f =
      AreApart-put (record { row = row; lines = [] })
        (record {
          key = ap (λ x. find_key x v.tables.orders) f.key_lem ∙ f.new_key;
          id = ap (λ x. find_id x v.tables.orders) f.id_lem ∙ f.new_id;
        })
        (λ j w ne e.
          (λ x. (f.apart j w ne e).0 (x ∙ f.key_lem), λ x. (f.apart j w ne e).1 (x ∙ f.id_lem)))

  pub AreApart-fill :
      (w : Own) (lines : List ItemRow)
      → v.own i ≡ some w
      → AreApart (writes v i (some (record w { lines = lines })))
  AreApart-fill w lines e =
      AreApart-put (record w { lines = lines }) (h.new i w e)
        (λ j w' ne e'. h.apart i j w w' ne e e')

  IsNew-merged :
      (j : ℕ) (w : Own) (o : Option Own)
      → i ≢ j
      → v.own j ≡ some w
      → v.own i ≡ o
      → IsNew (merged v.tables o) w.row
  unfolding find_key find_id
  IsNew-merged j w none ne e e' = h.new j w e
  IsNew-merged j w (some w0) ne e e' =
      let (keys, ids) = h.apart i j w0 w ne e' e in
      let new = h.new j w e in
      record {
        key =
            grind (arith, new.key, keys, text_eq_iff w0.row.idempotency_key w.row.idempotency_key);
        id = grind (arith, new.id, ids, text_eq_iff w0.row.id w.row.id);
      }

  pub AreApart-commit : AreApart (commits v i)
  AreApart-commit = record {
    new = λ j w e. elim (update-cases v.own i none j (some w) e) [
      | inl (same, x) ↦ cc
      | inr (other, x) ↦ IsNew-merged j w (v.own i) other x refl
    ];
    apart = AreApart-drop.apart;
  }
