-- ===== src/Stream/Loop/Points.antt =====
-- A stream attempt is atomic (src/live/structured_stream/init.rs): what is durable where it ends
-- is a point of its history, for a source that ends and rotates its log between transactions.
use mariadb_mysql_cdc.Prelude.{ℕ, Name, false, refl, sym, Option, List, [], arith}
use mathlib.Core.List.{append-nil}
use mariadb_mysql_cdc.Stream.Target.{Target, Policies}
use mariadb_mysql_cdc.Stream.Context.{new_transaction, Settings}
use mariadb_mysql_cdc.Stream.Contract.{Contract}
use mariadb_mysql_cdc.Stream.Transaction.Trace.{now, IsPoint}
use mariadb_mysql_cdc.Stream.Transaction.Commit.{AtomicMode}
use mariadb_mysql_cdc.Stream.Loop.{Received, initialize, stream_events}
use mariadb_mysql_cdc.Stream.Loop.Source.{IsSourceStream}
use mariadb_mysql_cdc.Stream.Loop.Atomic.{history, Ready, stream-Leaves}

module _ {W : Type 0} {t : Target W} {p : Policies} (k : Contract t p) (cfg : Settings)
    (mode : AtomicMode cfg) (stop : Option ℕ) where
  initialize-Ready :
      (database : Option Name) (file : Name) (w : W)
      → Ready k cfg (k.durable w) mode stop [] (initialize database file w)
  unfolding initialize new_transaction
  initialize-Ready database file w = record {
    inv = record {
      point = record {
        point = [];
        earlier = now;
        complete = refl;
        applied = sym (append-nil (k.durable w).applied);
        resumes = refl;
      };
      closed_count = λ _. refl;
      closed_rows = λ _. sym (append-nil (k.durable w).applied);
      closed_settled = λ _. refl;
      open_active = λ e. cc;
      open_rows = λ e. cc;
      room = λ n. ground arith;
      remembered = λ n. ground arith;
      resumes = λ n. ground arith;
      no_file = refl;
    };
    between = λ _. refl;
  }

  -- Where the source ends its log and rotates it between transactions only, and gives its commits
  -- and queries a position: wherever an attempt ends, at a bounded stop, at the end of such a log,
  -- or at an error, inside a transaction or not, of the source or of any call of the target, what
  -- is durable is a point of its history: the row events in the target tables are exactly those of
  -- complete source transactions, in order, and the stored checkpoint is the last one reached by
  -- them. The checkpoint is kept in a target table, groups have no timeout, and the source sends no
  -- schema change.
  pub stream_events-IsPoint :
      (database : Option Name) (file : Name) (w : W) (items : List Received)
      → IsSourceStream p false items
      → let r = initialize database file w in
        IsPoint
          (k.durable w)
          (k.durable (stream_events t cfg p stop items r).1.context.world)
          (history k cfg (k.durable w) mode stop items [] r)
  unfolding initialize
  stream_events-IsPoint database file w items s =
      stream-Leaves k cfg (k.durable w) mode stop items [] (initialize database file w)
        (initialize-Ready database file w) s
