-- ===== src/Http/Effects/Tests.antt =====
-- A POST /orders whose Commit loses its connection, and the instances of the theorem.
use checkout_saga.Common.{◌≡◌, refl, sym, ap, ◌∙◌, subst, inr}
use checkout_saga.GoError.{foreign, is_error, err}
use checkout_saga.Jwt.Plain.{library}
use checkout_saga.Repo.{order_repo}
use checkout_saga.Repo.Driver.{PgDriver}
use checkout_saga.Repo.Postgres.{IsPostgres}
use checkout_saga.Repo.Failures.{IsForeign, CommitsForeign}
use checkout_saga.Repo.Memory.{memory}
use checkout_saga.Repo.Memory.Laws.{memory_lem, no_rows_yet}
use checkout_saga.Http.Requests.{key_of}
use checkout_saga.Http.Router.{route_of, create_order, serve}
use checkout_saga.Http.Sample.{manager, moment, json, v, post}
use checkout_saga.Http.Effects.{Effect, serve-Effect}

-- The driver in memory, where Commit takes effect and its answer is lost.
abbrev lossy : PgDriver
lossy = record memory { commit = λ tx s. (err (foreign "conn closed"), (memory.commit tx s).1) }

lossy-IsPostgres : IsPostgres lossy
unfolding memory
lossy-IsPostgres =
    let pg = memory_lem.0 in
    record {
      committed = pg.committed;
      seen = pg.seen;
      begin_sees = pg.begin_sees;
      insert_ok = pg.insert_ok;
      insert_conflict = pg.insert_conflict;
      batch_length = pg.batch_length;
      batch_ok = pg.batch_ok;
      tx_reads = pg.tx_reads;
      pool_reads = pg.pool_reads;
      commit_ok = λ tx s s' h. cc;
      commit_err =
          λ tx s s' e h. inr (ap pg.committed (sym (ap (λ p. p.1) h)) ∙ pg.commit_ok tx s tx refl);
      rollback_keeps = pg.rollback_keeps;
    }

lossy-CommitsForeign : CommitsForeign lossy
unfolding is_error
lossy-CommitsForeign tx s e h =
    let same : foreign "conn closed" ≡ e = cc in
    subst IsForeign same (record { not_found = refl; not_order = refl; not_money = refl })

routed : route_of post.method post.path ≡ create_order
unfolding route_of post
routed = refl

serve-Effect_example :
    Effect
      (key_of post)
      (lossy-IsPostgres.committed no_rows_yet)
      (lossy-IsPostgres.committed
        (serve (order_repo lossy) library manager json v moment post no_rows_yet).1)
      (serve (order_repo lossy) library manager json v moment post no_rows_yet).0.reply
serve-Effect_example =
    serve-Effect lossy lossy-IsPostgres lossy-CommitsForeign library manager json v moment post
      no_rows_yet routed
