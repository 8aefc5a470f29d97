-- ===== src/Repo/Interleaving/Safety.antt =====
-- OrderRepo.Create under any interleaving of its calls: the claims of its comment on concurrency.
use checkout_saga.Common.{◌≡◌, refl, subst, ℕ, none}
use checkout_saga.Order.{Order}
use checkout_saga.Repo.Interleaving.{
  Pc, idle, begun, inserted, filled, conflicted, found, loaded, closing, returned, settled, advance,
  System, Step, pick, Reach, start, later,
}
use checkout_saga.Repo.Interleaving.Server.{PgServer, IsServer}
use checkout_saga.Repo.Interleaving.Apart.{AreApart}
use checkout_saga.Repo.Interleaving.Serial.{Serial, nothing}
use checkout_saga.Repo.Interleaving.Local.{Local}
use checkout_saga.Repo.Interleaving.Invariant.{logged, AreOnce, Inv, Moved-Inv}
use checkout_saga.Repo.Interleaving.Moves.{MovedTo}
use checkout_saga.Repo.Interleaving.Moves.Writing.{
  begin-MovedTo, insert-MovedTo, batch-MovedTo, close-MovedTo,
}
use checkout_saga.Repo.Interleaving.Moves.Reading.{row_id-MovedTo, row_key-MovedTo, items-MovedTo}
use checkout_saga.Repo.Interleaving.Moves.Committing.{commit-MovedTo}

module _ (srv : PgServer) (is : IsServer srv) where
  open srv use {Server}
  open is use {view}

  -- No transaction is open.
  abbrev pub IsQuiet : Server → Type 0
  IsQuiet s = (i : ℕ) → (view s).own i ≡ none

  advance-MovedTo :
      (order : Order) (i : ℕ) (s : Server)
      → AreApart (view s)
      → (p : Pc) → Local order (view s).tables ((view s).own i) p
      → MovedTo srv is order i p s (advance srv i order p s)
  unfolding advance
  advance-MovedTo order i s a idle h = begin-MovedTo srv is order i s a h
  advance-MovedTo order i s a begun h = insert-MovedTo srv is order i s a h
  advance-MovedTo order i s a (inserted id) h = batch-MovedTo srv is order i s a id h
  advance-MovedTo order i s a (filled id) h = row_id-MovedTo srv is order i s a id h
  advance-MovedTo order i s a conflicted h = row_key-MovedTo srv is order i s a h
  advance-MovedTo order i s a (found b x) h = items-MovedTo srv is order i s a b x h
  advance-MovedTo order i s a (loaded b x) h = commit-MovedTo srv is order i s a b x h
  advance-MovedTo order i s a (closing r) h = close-MovedTo srv is order i s a r h
  advance-MovedTo order i s a (returned r) h = tt

  module _ (orders : ℕ → Order) (n : ℕ) where
    abbrev pub InvAt : Server → System srv → Type 0
    InvAt server s = Inv orders (view server).tables (view s.server) s.pc s.log

    Step-Inv :
        (server : Server) (s t : System srv)
        → Step srv orders n s t
        → InvAt server s
        → InvAt server t
    Step-Inv server s t (pick i {p} {server = next} lt e) inv =
        Moved-Inv orders (view server).tables (view s.server) (view next) s.pc s.log i p inv (
          subst (MovedTo srv is (orders i) i (s.pc i) s.server) e
            (advance-MovedTo (orders i) i s.server inv.apart (s.pc i) (inv.local i)))

    pub Reach-Inv :
        (server : Server) (k : ℕ) (s : System srv)
        → IsQuiet server
        → Reach srv orders n server k s
        → InvAt server s
    unfolding logged
    Reach-Inv server k s quiet start = record {
      serial = nothing;
      once = tt;
      settles = λ i. refl;
      apart = record { new = λ i w e. cc (quiet i); apart = λ i j w w' ne e e'. cc (quiet i) };
      local = quiet;
    }
    Reach-Inv server k t quiet (later {k = m} {s} r st) =
        Step-Inv server s t st (Reach-Inv server m s quiet r)

    -- From a state of the server in which no transaction has written anything, however the
    -- statements of the calls interleave: the calls that have settled, run one at a time in the
    -- order in which they settled, lead from the first tables to the committed ones, each with an
    -- outcome that its result tells; a call settles once, with what it returns.
    pub Reach-Serial :
        (server : Server) (k : ℕ) (s : System srv)
        → IsQuiet server
        → Reach srv orders n server k s
        → Serial orders (view server).tables s.log (view s.server).tables
          × AreOnce s.log
          × ((i : ℕ) → logged i s.log ≡ settled (s.pc i))
    Reach-Serial server k s quiet r =
        let inv = Reach-Inv server k s quiet r in (inv.serial, inv.once, inv.settles)
