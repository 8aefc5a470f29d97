-- ===== src/Repo/Interleaving/Moves.antt =====
-- The kinds of moves that keep the invariant, and the move of a statement.
pub mod Writing
pub mod Reading
pub mod Committing
use mathlib.Core.List.{Perm}
use checkout_saga.Common.{
  ◌≡◌, ◌≢◌, refl, sym, ap, ◌∙◌, subst, ℕ, Bool, true, false, List, [], ◌∷◌, Option, All, none, some,
  map, inl, inr, Bool-cases, Option-cases,
}
use checkout_saga.Common.Family.{update, update_same, update_other}
use checkout_saga.Common.Text.{Text}
use checkout_saga.GoError.{
  Error, prefixed, is_error, no_rows, Result, ok, err, ◌>>=◌, annotate, >>=-eq-ok, annotate-eq-ok,
}
use checkout_saga.Money.{money_string}
use checkout_saga.Order.{Order, status_text}
use checkout_saga.Repo.{item_args, exec_results}
use checkout_saga.Repo.Driver.{Batch, ItemRow}
use checkout_saga.Repo.Postgres.{find_key, row_args}
use checkout_saga.Repo.Creating.{failed, exec_results-All, length-map}
use checkout_saga.Repo.Interleaving.{
  Pc, idle, begun, inserted, filled, conflicted, found, loaded, closing, returned, settled,
  after_begin, after_insert, batch_result, after_batch, after_insert_order, advance,
}
use checkout_saga.Repo.Interleaving.Server.{PgServer, Own, View, writes, IsServer}
use checkout_saga.Repo.Interleaving.Apart.{AreApart, AreApart-drop, AreApart-insert, AreApart-fill}
use checkout_saga.Repo.Interleaving.Local.{IsWritten, Local}
use checkout_saga.Repo.Interleaving.Invariant.{Moved, same, new}

module _ (order : Order) (i : ℕ) (v : View) (apart : AreApart v) where
  -- A step that leaves the server as it was.
  pub Moved-still :
      (v' : View) (p p' : Pc)
      → v' ≡ v
      → settled p' ≡ settled p
      → Local order v.tables (v.own i) p'
      → Moved order i v v' p p'
  Moved-still v' p p' e s h =
      subst (λ x. Moved order i v x p p') (sym e)
        (record { settling = same s refl; apart = apart; others = λ j ne. refl; local = h })

  -- A step that settles the call with an error, and leaves the server as it was.
  pub Moved-err :
      (v' : View) (p p' : Pc) (e : Error)
      → v' ≡ v
      → settled p ≡ none
      → settled p' ≡ some (err e)
      → Local order v.tables (v.own i) p'
      → Moved order i v v' p p'
  Moved-err v' p p' e kept s s' h =
      subst (λ x. Moved order i v x p p') (sym kept)
        (record {
          settling = new (err e) s s' (failed e refl refl);
          apart = apart;
          others = λ j ne. refl;
          local = h;
        })

  -- A step that changes what the transaction has written.
  pub Moved-writes :
      (v' : View) (p p' : Pc) (o : Option Own)
      → v' ≡ writes v i o
      → AreApart (writes v i o)
      → settled p' ≡ settled p
      → Local order v.tables o p'
      → Moved order i v v' p p'
  Moved-writes v' p p' o e a s h =
      subst (λ x. Moved order i v x p p') (sym e)
        (record {
          settling = same s refl;
          apart = a;
          others = λ j ne. update_other v.own i o j ne;
          local = subst (λ x. Local order v.tables x p') (sym (update_same v.own i o)) h;
        })

  -- A step that changes what the transaction has written, and settles the call with an error.
  pub Moved-writes_err :
      (v' : View) (p : Pc) (o : Option Own) (e : Error)
      → v' ≡ writes v i o
      → AreApart (writes v i o)
      → settled p ≡ none
      → Moved order i v v' p (closing (err e))
  Moved-writes_err v' p o e wrote a s =
      subst (λ x. Moved order i v x p (closing (err e))) (sym wrote)
        (record {
          settling = new (err e) s refl (failed e refl refl);
          apart = a;
          others = λ j ne. update_other v.own i o j ne;
          local = tt;
        })

module _ (srv : PgServer) (is : IsServer srv) (order : Order) (i : ℕ) where
  open srv use {Server}
  open is use {view}

  -- Where a step leads, if it is made.
  abbrev pub MovedTo : Pc → Server → Option (Pc × Server) → Type 0
  MovedTo p s none = Unit
  MovedTo p s (some (p', s')) = Moved order i (view s) (view s') p p'
