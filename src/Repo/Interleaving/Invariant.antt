-- ===== src/Repo/Interleaving/Invariant.antt =====
-- What holds in every state of the interleaved calls, and that a move of one call keeps it.
use checkout_saga.Common.{
  ◌≡◌, ◌≢◌, refl, sym, ap, ◌∙◌, subst, ℕ, Bool, List, [], ◌∷◌, Option, none, some, arith,
}
use checkout_saga.Common.Family.{update, update_same, update_other}
use checkout_saga.GoError.{Result}
use checkout_saga.Order.{Order}
use checkout_saga.Repo.Postgres.{Tables}
use checkout_saga.Repo.Creating.{Outcome}
use checkout_saga.Repo.Interleaving.{Pc, settled, note}
use checkout_saga.Repo.Interleaving.Server.{View}
use checkout_saga.Repo.Interleaving.Apart.{AreApart}
use checkout_saga.Repo.Interleaving.Serial.{Serial, call, Extends, Extends-same, Outcome-Extends}
use checkout_saga.Repo.Interleaving.Local.{Local, Local-Extends}
use native.Mathlib.Decide.{ℕ_discrete}

-- What the log has for a call.
unfoldable pub logged : ℕ → List (ℕ × Result (Order × Bool)) → Option (Result (Order × Bool))
logged i [] = none
logged i ((j, r) ∷ log) = elim (ℕ_discrete j i) [ yes _ ↦ some r | no _ ↦ logged i log ]

-- No call is in the log twice.
abbrev pub AreOnce : List (ℕ × Result (Order × Bool)) → Type 0
AreOnce [] = Unit
AreOnce ((i, r) ∷ log) = (logged i log ≡ none) × AreOnce log

pub record Inv (orders : ℕ → Order) (t0 : Tables) (v : View) (pc : ℕ → Pc)
    (log : List (ℕ × Result (Order × Bool))) : Type 0 where
  pub serial : Serial orders t0 log v.tables
  pub once : AreOnce log
  pub settles : (i : ℕ) → logged i log ≡ settled (pc i)
  pub apart : AreApart v
  pub local : (i : ℕ) → Local (orders i) v.tables (v.own i) (pc i)

-- What a step settles: nothing new, and the tables stay; or the result of the call.
pub data Settling (order : Order) (t t' : Tables) (before after : Option (Result (Order × Bool)))
    : Type 0 where
  same : after ≡ before → t' ≡ t → Settling order t t' before after
  new :
      (r : Result (Order × Bool))
      → before ≡ none
      → after ≡ some r
      → Outcome order t t' r
      → Settling order t t' before after

-- A move of call `i` of an order from `p` to `p'`.
pub record Moved (order : Order) (i : ℕ) (v v' : View) (p p' : Pc) : Type 0 where
  pub settling : Settling order v.tables v'.tables (settled p) (settled p')
  pub apart : AreApart v'
  pub others : (j : ℕ) → i ≢ j → v'.own j ≡ v.own j
  pub local : Local order v'.tables (v'.own i) p'

note_same :
    (i : ℕ) (a : Option (Result (Order × Bool))) (log : List (ℕ × Result (Order × Bool)))
    → note i a a log ≡ log
note_same i none log = refl
note_same i (some r) log = refl

logged-cons_same :
    (i : ℕ) (r : Result (Order × Bool)) (log : List (ℕ × Result (Order × Bool)))
    → logged i ((i, r) ∷ log) ≡ some r
unfolding logged
logged-cons_same i r log = grind arith

logged-cons_other :
    (i j : ℕ) (r : Result (Order × Bool)) (log : List (ℕ × Result (Order × Bool)))
    → i ≢ j
    → logged j ((i, r) ∷ log) ≡ logged j log
unfolding logged
logged-cons_other i j r log ne = grind arith

Settling-Extends :
    (order : Order) (t t' : Tables) (a b : Option (Result (Order × Bool)))
    → Settling order t t' a b
    → Extends t t'
Settling-Extends order t t' a b (same e h) = Extends-same t t' h
Settling-Extends order t t' a b (new r e e' out) = Outcome-Extends order t t' r out

module _ (orders : ℕ → Order) (t0 : Tables) (v v' : View) (pc : ℕ → Pc)
    (log : List (ℕ × Result (Order × Bool))) (i : ℕ) (p' : Pc) where
  -- The part of the invariant that the log is about.
  record Noted (log' : List (ℕ × Result (Order × Bool))) : Type 0 where
    serial : Serial orders t0 log' v'.tables
    once : AreOnce log'
    settles : (j : ℕ) → logged j log' ≡ settled (update pc i p' j)

  Settling-Noted :
      Inv orders t0 v pc log
      → Settling (orders i) v.tables v'.tables (settled (pc i)) (settled p')
      → Noted (note i (settled (pc i)) (settled p') log)
  Settling-Noted inv (same e h) =
      subst Noted
        (sym (ap (λ a. note i (settled (pc i)) a log) e ∙ note_same i (settled (pc i)) log))
        (record {
          serial = subst (Serial orders t0 log) (sym h) inv.serial;
          once = inv.once;
          settles = λ j. elim (ℕ_discrete i j) [
            | yes here ↦ grind (arith, inv.settles j, update_same pc i p')
            | no other ↦ inv.settles j ∙ ap settled (sym (update_other pc i p' j other))
          ];
        })
  Settling-Noted inv (new r e e' out) =
      subst Noted (sym (ap (λ a. note i a (settled p') log) e ∙ ap (λ a. note i none a log) e'))
        (record {
          serial = call i r inv.serial out;
          once = (inv.settles i ∙ e, inv.once);
          settles = λ j. elim (ℕ_discrete i j) [
            | yes here ↦
                subst (λ k. logged k ((i, r) ∷ log) ≡ settled (update pc i p' k)) here
                  (logged-cons_same i r log ∙ sym e' ∙ ap settled (sym (update_same pc i p')))
            | no other ↦
                logged-cons_other i j r log other
                ∙ inv.settles j
                ∙ ap settled (sym (update_other pc i p' j other))
          ];
        })

  Local-others :
      Inv orders t0 v pc log
      → Moved (orders i) i v v' (pc i) p'
      → (j : ℕ) → Local (orders j) v'.tables (v'.own j) (update pc i p' j)
  Local-others inv m j = elim (ℕ_discrete i j) [
    | yes here ↦
        subst (λ k. Local (orders k) v'.tables (v'.own k) (update pc i p' k)) here
          (subst (Local (orders i) v'.tables (v'.own i)) (sym (update_same pc i p')) m.local)
    | no other ↦
        subst (λ o. Local (orders j) v'.tables o (update pc i p' j)) (sym (m.others j other))
          (subst (Local (orders j) v'.tables (v.own j)) (sym (update_other pc i p' j other)) (
            Local-Extends (orders j) (Settling-Extends (orders i) v.tables v'.tables _ _ m.settling)
              (v.own j) (pc j) (inv.local j)))
  ]

  pub Moved-Inv :
      Inv orders t0 v pc log
      → Moved (orders i) i v v' (pc i) p'
      → Inv orders t0 v' (update pc i p') (note i (settled (pc i)) (settled p') log)
  Moved-Inv inv m =
      let noted = Settling-Noted inv m.settling in
      record {
        serial = noted.serial;
        once = noted.once;
        settles = noted.settles;
        apart = m.apart;
        local = Local-others inv m;
      }
