-- ===== src/Repo/Interleaving/Moves/Reading.antt =====
-- The statements of a call that read: the row and the lines, on both paths.
use checkout_saga.Repo.Keys.{find_id_of_find_key}
use checkout_saga.Common.{◌≡◌, refl, sym, subst, ℕ, Bool, true, false, Option, none, some}
use checkout_saga.Common.Text.{Text, text_eq_iff}
use checkout_saga.GoError.{Result, ok, err}
use checkout_saga.Order.{Order}
use checkout_saga.Repo.Interleaving.{
  filled, conflicted, found, loaded, advance, after_row, after_items,
}
use checkout_saga.Repo.Interleaving.Server.{PgServer, Own, IsServer, merged}
use checkout_saga.Repo.Interleaving.Apart.{AreApart}
use checkout_saga.Repo.Interleaving.Local.{IsWritten, Local, IsFull, IsScanned}
use checkout_saga.Repo.Interleaving.Invariant.{Moved}
use checkout_saga.Repo.{scan_order, attach_items}
use checkout_saga.Repo.Postgres.{Reads, Tables}
use checkout_saga.Repo.Creating.{find_id-head}
use checkout_saga.Repo.Loading.{IsStored, load-IsStored, scan_order-ok}
use checkout_saga.Repo.Interleaving.Moves.{Moved-still, Moved-err, MovedTo}

merged-items : (t : Tables) (w : Own) → (merged t (some w)).items w.row.id ≡ w.lines
merged-items t w = rw ((text_eq_iff w.row.id w.row.id).1 refl) refl

module _ (srv : PgServer) (is : IsServer srv) (order : Order) (i : ℕ) where
  open srv use {Server}
  open is use {view}

  -- The reads of a transaction that has written nothing, and of one that has written an order.
  abbrev reads_at :
      (s : Server) (o : Option Own)
      → (view s).own i ≡ o
      → Reads (srv.in_tx i s) (merged (view s).tables o)
  reads_at s o e = subst (λ x. Reads (srv.in_tx i s) (merged (view s).tables x)) e (is.reads i s)

  module _ (s : Server) (apart : AreApart (view s)) where
    row_id-MovedTo_row :
        (w : Own)
        → IsWritten order ((view s).own i) w
        → IsFull order w
        → MovedTo srv is order i (filled w.row.id) s (advance srv i order (filled w.row.id) s)
    unfolding advance after_row
    row_id-MovedTo_row w written full = go (scan_order ((srv.in_tx i s).order_by_id w.row.id)) refl
      where
        reads : Reads (srv.in_tx i s) (merged (view s).tables (some w))
        reads = reads_at s (some w) written.own

        go :
            (r : Result Order)
            → scan_order ((srv.in_tx i s).order_by_id w.row.id) ≡ r
            → Moved order i (view s) (view s) (filled w.row.id) (after_row true r)
        go (err e) h = Moved-err order i (view s) apart _ (filled w.row.id) _ _ refl refl refl tt
        go (ok x) h =
            let (row, total, is_row, parsed, made) = scan_order-ok _ x h in
            let own_row : w.row ≡ row =
              (reads.by_id_ok w.row.id row is_row).same w.row
                (find_id-head w.row (view s).tables.orders w.row.id refl) in
            Moved-still order i (view s) apart _ (filled w.row.id) (found true x) refl refl
              (w, written, full, subst (λ k. IsScanned k x) (sym own_row) (total, parsed, made))

    pub row_id-MovedTo :
        (id : Text)
        → Local order (view s).tables ((view s).own i) (filled id)
        → MovedTo srv is order i (filled id) s (advance srv i order (filled id) s)
    row_id-MovedTo id (w, written, is_id, full) =
        subst (λ x. MovedTo srv is order i (filled x) s (advance srv i order (filled x) s)) is_id
          (row_id-MovedTo_row w written full)

    pub row_key-MovedTo :
        Local order (view s).tables ((view s).own i) conflicted
        → MovedTo srv is order i conflicted s (advance srv i order conflicted s)
    unfolding advance after_row
    row_key-MovedTo (row0, nothing, there) =
        go (scan_order ((srv.in_tx i s).order_by_key order.idempotency_key)) refl
      where
        reads : Reads (srv.in_tx i s) (view s).tables
        reads = reads_at s none nothing

        go :
            (r : Result Order)
            → scan_order ((srv.in_tx i s).order_by_key order.idempotency_key) ≡ r
            → Moved order i (view s) (view s) conflicted (after_row false r)
        go (err e) h = Moved-err order i (view s) apart _ conflicted _ _ refl refl refl tt
        go (ok x) h =
            let (row, total, is_row, parsed, made) = scan_order-ok _ x h in
            Moved-still order i (view s) apart _ conflicted (found false x) refl refl (
              row,
              nothing,
              reads.by_key_ok order.idempotency_key row is_row,
              (total, parsed, made),
            )

    items-MovedTo_of :
        (b : Bool) (x : Order)
        → ((y : Order)
            → attach_items (srv.in_tx i s) x ≡ ok y
            → Local order (view s).tables ((view s).own i) (loaded b y))
        → MovedTo srv is order i (found b x) s (advance srv i order (found b x) s)
    unfolding advance after_items
    items-MovedTo_of b x make = go (attach_items (srv.in_tx i s) x) refl
      where
        go :
            (r : Result Order)
            → attach_items (srv.in_tx i s) x ≡ r
            → Moved order i (view s) (view s) (found b x) (after_items b r)
        go (err e) h = Moved-err order i (view s) apart _ (found b x) _ _ refl refl refl tt
        go (ok y) h =
            Moved-still order i (view s) apart _ (found b x) (loaded b y) refl refl (make y h)

    pub items-MovedTo :
        (b : Bool) (x : Order)
        → Local order (view s).tables ((view s).own i) (found b x)
        → MovedTo srv is order i (found b x) s (advance srv i order (found b x) s)
    items-MovedTo true x (w, written, full, (total, parsed, made)) = items-MovedTo_of true x (λ y h.
        (
          w,
          written,
          full,
          subst (λ l. IsStored w.row l y) (merged-items (view s).tables w)
              (load-IsStored (reads_at s (some w) written.own) w.row total y
                (λ e. cc (find_id-head w.row (view s).tables.orders w.row.id refl, e)) parsed
                (subst (λ k. attach_items (srv.in_tx i s) k ≡ ok y) made h)),
        ))
    items-MovedTo false x (row, nothing, there, (total, parsed, made)) =
        items-MovedTo_of false x (λ y h. (
          nothing,
          record {
            row = row;
            found = there;
            stored =
                load-IsStored (reads_at s none nothing) row total y
                  (find_id_of_find_key order.idempotency_key (view s).tables.orders row there)
                  parsed (subst (λ k. attach_items (srv.in_tx i s) k ≡ ok y) made h);
          },
        ))
