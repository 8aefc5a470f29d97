-- ===== src/Repo/Interleaving/Moves/Committing.antt =====
-- Commit, on both paths, with a success and with a failure.
use mathlib.Core.List.{Perm}
use checkout_saga.Common.{
  ◌≡◌, ◌≢◌, refl, sym, ap, ◌∙◌, subst, ℕ, Bool, true, false, Option, none, some, map, inl, inr,
  arith,
}
use checkout_saga.Common.Family.{update, update_other}
use checkout_saga.GoError.{Error, Result, ok, err}
use checkout_saga.Order.{Order}
use checkout_saga.Repo.{item_args}
use checkout_saga.Repo.Postgres.{find_key, row_args, find_id, Tables, stored_args}
use checkout_saga.Repo.Creating.{failed, Outcome, created, replayed, unknown, IsCreated}
use checkout_saga.Repo.Interleaving.{loaded, closing, advance, after_commit}
use checkout_saga.Repo.Interleaving.Server.{PgServer, Own, View, writes, IsServer, merged, commits}
use checkout_saga.Repo.Interleaving.Apart.{AreApart, AreApart-drop, AreApart-commit}
use checkout_saga.Repo.Interleaving.Local.{IsWritten, Local, IsFull, IsAnswer}
use checkout_saga.Repo.Interleaving.Invariant.{Moved, new}
use checkout_saga.Common.Text.{text_eq_iff}
use checkout_saga.Repo.Loading.{IsStored}
use checkout_saga.Repo.Replays.{ok-Holds}
use checkout_saga.Repo.Interleaving.Moves.{MovedTo}

merged-IsCreated :
    (order x : Order) (t : Tables) (o : Option Own) (w : Own)
    → IsWritten order o w
    → IsFull order w
    → IsStored w.row w.lines x
    → find_key w.row.idempotency_key t.orders ≡ none
    → find_id w.row.id t.orders ≡ none
    → IsCreated order t (merged t (some w)) x
merged-IsCreated order x t o w written full stored new_key new_id =
    let lines : (merged t (some w)).items w.row.id ≡ w.lines =
      rw ((text_eq_iff w.row.id w.row.id).1 refl) refl in
    record {
      row = w.row;
      added = refl;
      others = λ j ne. grind (arith, text_eq_iff w.row.id j);
      new_key = ap (λ k. find_key k t.orders) (sym written.key_lem) ∙ new_key;
      new_id = new_id;
      user_id_lem = written.user_id_lem;
      total_lem = written.total_lem;
      status_lem = written.status_lem;
      key_lem = written.key_lem;
      lines =
          subst (λ l. Perm (map row_args l) (map stored_args (map item_args order.items)))
            (sym lines) full;
      stored = subst (λ l. IsStored w.row l x) (sym lines) stored;
    }

module _ (order : Order) (i : ℕ) (v : View) (apart : AreApart v) where
  -- What Commit leaves is an outcome of the call.
  Moved-outcome :
      (v' v1 : View) (b : Bool) (x : Order) (r : Result (Order × Bool))
      → v' ≡ v1
      → AreApart v1
      → ((j : ℕ) → i ≢ j → v1.own j ≡ v.own j)
      → Outcome order v.tables v1.tables r
      → Moved order i v v' (loaded b x) (closing r)
  Moved-outcome v' v1 b x r e a others out =
      subst (λ k. Moved order i v k (loaded b x) (closing r)) (sym e)
        (record {
          settling = new r refl refl out;
          apart = a;
          others = others;
          local = answer r out;
        })
    where
      answer :
          (r : Result (Order × Bool))
          → Outcome order v.tables v1.tables r
          → IsAnswer order v1.tables r
      answer (ok (o, c)) h = ok-Holds order v.tables v1.tables _ o c h refl
      answer (err e) h = tt

module _ (srv : PgServer) (is : IsServer srv) (order : Order) (i : ℕ) where
  open srv use {Server}
  open is use {view}

  module _ (s : Server) (apart : AreApart (view s)) where
    -- Commit, from the outcomes that it may have.
    commit-MovedTo_of :
        (b : Bool) (x : Order)
        → Outcome order (view s).tables (commits (view s) i).tables (ok (x, b))
        → ((e : Error) → Outcome order (view s).tables (commits (view s) i).tables (err e))
        → MovedTo srv is order i (loaded b x) s (advance srv i order (loaded b x) s)
    unfolding advance after_commit
    commit-MovedTo_of b x done lost = go (srv.commit i s).0 refl
      where
        others : (o : Option Own) (j : ℕ) → i ≢ j → update (view s).own i o j ≡ (view s).own j
        others = λ o j ne. update_other (view s).own i o j ne

        go :
            (r : Result (Unit {0}))
            → (srv.commit i s).0 ≡ r
            → Moved order i (view s) (view (srv.commit i s).1) (loaded b x) (after_commit b x r)
        go (ok u) h =
            Moved-outcome order i (view s) apart _ (commits (view s) i) b x _
              (is.commit_ok i s _ (λ k. (h k, (srv.commit i s).1)))
              (AreApart-commit (view s) apart i) (others none) done
        go (err e) h = elim (is.commit_err i s _ e (λ k. (h k, (srv.commit i s).1))) [
          | inl kept ↦
              Moved-outcome order i (view s) apart _ (writes (view s) i none) b x _ kept
                (AreApart-drop (view s) apart i) (others none) (failed _ refl refl)
          | inr went ↦
              Moved-outcome order i (view s) apart _ (commits (view s) i) b x _ went
                (AreApart-commit (view s) apart i) (others none) (lost _)
        ]

    pub commit-MovedTo :
        (b : Bool) (x : Order)
        → Local order (view s).tables ((view s).own i) (loaded b x)
        → MovedTo srv is order i (loaded b x) s (advance srv i order (loaded b x) s)
    commit-MovedTo true x (w, written, full, stored) =
        let fresh = apart.new i w written.own in
        let made : IsCreated order (view s).tables (commits (view s) i).tables x =
          subst (λ o. IsCreated order (view s).tables (merged (view s).tables o) x)
            (sym written.own)
            (merged-IsCreated order x (view s).tables _ w written full stored fresh.key fresh.id) in
        commit-MovedTo_of true x (created x refl made) (λ e. unknown e x refl made)
    commit-MovedTo false x (nothing, h) =
        let kept : (commits (view s) i).tables ≡ (view s).tables =
          ap (merged (view s).tables) nothing in
        commit-MovedTo_of false x (replayed x h.row refl h.found h.stored kept)
          (λ e. failed e refl kept)
