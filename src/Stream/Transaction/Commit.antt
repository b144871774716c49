-- ===== src/Stream/Transaction/Commit.antt =====
-- The invariant of a context between two events, and that committing the group keeps it.
use mariadb_mysql_cdc.Prelude.{
  ◌<◌, Name, true, false, ◌≡◌, ◌⊎◌, inl, inr, Option, none, some, is_some, ◌++◌, arith,
  Option-cases,
}
use mariadb_mysql_cdc.Stream.Types.{BinlogCoordinate, Checkpoint, coordinate_of}
use mariadb_mysql_cdc.Stream.Exec.{Result, ok}
use mariadb_mysql_cdc.Stream.Target.{Target, Policies}
use mariadb_mysql_cdc.Stream.Context.{Settings, Context, new_transaction}
use mariadb_mysql_cdc.Stream.Checkpoints.{lock_validate_and_save_checkpoint}
use mariadb_mysql_cdc.Stream.Transaction.{
  write_pending, commit_if_open, commit_target_group, flush_grouped_transaction,
}
use mariadb_mysql_cdc.Stream.Contract.{Content, store, Contract}
use mariadb_mysql_cdc.Stream.Transaction.Trace.{
  Trace, rows, settled, reached, now, stored_coordinate, IsPoint,
}

abbrev pub pending_coordinate : Option Checkpoint → Option BinlogCoordinate
pending_coordinate none = none
pending_coordinate (some c) = some (coordinate_of c)

-- The checkpoint is written in the target transaction, and groups are closed by their size alone.
pub record AtomicMode (cfg : Settings) : Type 0 where
  pub table : Name
  pub name : Name
  pub has_table : cfg.transaction_checkpoint_table ≡ some table
  pub has_name : cfg.transaction_checkpoint_name ≡ some name
  pub no_timeout : cfg.group_config.timeout ≡ 0

module _ {W : Type 0} {t : Target W} {p : Policies} (k : Contract t p) (cfg : Settings) where
  pub record Inv (start : Content) (h : Trace) (c : Context W) : Type 0 where
    pub point : IsPoint start (k.durable c.world) h
    pub closed_count : c.transaction.is_open ≡ false → c.transaction.source_transactions ≡ 0
    pub closed_rows :
        c.transaction.is_open ≡ false → (k.durable c.world).applied ≡ start.applied ++ rows h
    pub closed_settled : c.transaction.is_open ≡ false → settled h ≡ true
    pub open_active : c.transaction.is_open ≡ true → k.active c.world ≡ true
    pub open_rows :
        c.transaction.is_open ≡ true → (k.working c.world).applied ≡ start.applied ++ rows h
    pub room :
        0 < c.transaction.source_transactions
        → (1 < cfg.group_config.size) × (c.transaction.source_transactions < cfg.group_config.size)
    pub remembered :
        0 < c.transaction.source_transactions
        → is_some c.transaction.pending_transaction_checkpoint ≡ true
    pub resumes :
        0 < c.transaction.source_transactions
        → pending_coordinate c.transaction.pending_transaction_checkpoint
          ≡ reached (stored_coordinate start) h
    pub no_file : c.transaction.pending_file_checkpoint ≡ none

  record IsLocked (candidate : Checkpoint) (c c' : Context W) (r : Result (Unit {0})) : Type 0 where
    transaction : c'.transaction ≡ c.transaction
    durable : k.durable c'.world ≡ k.durable c.world
    working : r ≡ ok tt → k.working c'.world ≡ store candidate (k.working c.world)

  lock-IsLocked :
      (table name : Name) (candidate : Checkpoint) (c : Context W)
      → let (r, c') = lock_validate_and_save_checkpoint t table name candidate c in
        IsLocked candidate c c' r
  unfolding lock_validate_and_save_checkpoint
  lock-IsLocked table name candidate c =
      let w = (t.load_transaction_checkpoint_for_update table name c.world).1 in
      ground (
        arith,
        k.load_durable table name c.world,
        k.load_working table name c.world,
        k.save_durable table name candidate w,
        k.save_working table name candidate w,
      )

  pub record IsWritten (candidate : Checkpoint) (c c' : Context W) (r : Result (Unit {0}))
      : Type 0 where
    pub transaction : r ≡ ok tt → c'.transaction ≡ c.transaction
    pub durable : k.durable c'.world ≡ k.durable c.world
    pub working : r ≡ ok tt → k.working c'.world ≡ store candidate (k.working c.world)

  pub write-IsWritten :
      (table name : Name) (candidate : Checkpoint) (c : Context W)
      → let (r, c') = write_pending t cfg (some candidate) (some table) (some name) c in
        IsWritten candidate c c' r
  unfolding write_pending
  write-IsWritten table name candidate c = ground (arith, lock-IsLocked table name candidate c)

  pub record IsCommitted (c c' : Context W) (r : Result (Unit {0})) : Type 0 where
    pub transaction : r ≡ ok tt → c'.transaction ≡ new_transaction
    pub durable : r ≡ ok tt → k.durable c'.world ≡ k.working c.world
    pub failed : (k.durable c'.world ≡ k.durable c.world) ⊎ (k.durable c'.world ≡ k.working c.world)

  pub commit-IsCommitted :
      (c : Context W)
      → c.transaction.is_open ≡ true
      → let (r, c') = commit_if_open t cfg c in IsCommitted c c' r
  unfolding commit_if_open new_transaction
  commit-IsCommitted c o = ground (arith, k.commit_done c.world, k.commit_failed c.world)

  module _ (start : Content) (mode : AtomicMode cfg) where
    open mode use {table, name}

    -- A commit ends the transaction, and what is durable is a point of the history, whether the
    -- commit succeeds, fails or fails after its effect.
    pub record IsClosed (h : Trace) (c : Context W) (r : Result (Unit {0})) : Type 0 where
      pub point : IsPoint start (k.durable c.world) h
      pub kept : r ≡ ok tt → Inv start h c
      pub closed : r ≡ ok tt → c.transaction.is_open ≡ false

    IsPoint-store :
        (h : Trace) (candidate : Checkpoint) (content : Content)
        → settled h ≡ true
        → content.applied ≡ start.applied ++ rows h
        → some (coordinate_of candidate) ≡ reached (stored_coordinate start) h
        → IsPoint start (store candidate content) h
    IsPoint-store h candidate content s a r = record {
      point = h;
      earlier = now;
      complete = s;
      applied = a;
      resumes = r;
    }

    pub commit-IsClosed :
        (h : Trace) (c : Context W) (candidate : Checkpoint)
        → c.transaction.is_open ≡ true
        → c.transaction.pending_transaction_checkpoint ≡ some candidate
        → c.transaction.pending_file_checkpoint ≡ none
        → IsPoint start (k.durable c.world) h
        → (k.working c.world).applied ≡ start.applied ++ rows h
        → settled h ≡ true
        → some (coordinate_of candidate) ≡ reached (stored_coordinate start) h
        → let (r, c') = commit_target_group t cfg c in IsClosed h c' r
    unfolding commit_target_group new_transaction
    commit-IsClosed h c candidate o pe nf i a s r =
        let c1 = record c {
          transaction = record c.transaction { pending_transaction_checkpoint = none };
        } in
        let c2 = (write_pending t cfg (some candidate) (some table) (some name) c1).1 in
        ground (
          arith,
          write-IsWritten table name candidate c1,
          commit-IsCommitted c2,
          IsPoint-store h candidate (k.working c.world) s a r,
        )

    -- The group commits at a point: with transactions complete and no row event after them.
    pub group-IsClosed :
        (h : Trace) (c : Context W)
        → Inv start h c
        → settled h ≡ true
        → 0 < c.transaction.source_transactions
        → let (r, c') = commit_target_group t cfg c in IsClosed h c' r
    group-IsClosed h c i s n = elim (Option-cases c.transaction.pending_transaction_checkpoint) [
      | inl e ↦ absurd (ground (arith, i.remembered n))
      | inr (candidate, e) ↦
          commit-IsClosed h c candidate (ground (arith, i.closed_count)) e i.no_file i.point
            (i.open_rows (ground (arith, i.closed_count))) s (ground (arith, i.resumes n))
    ]

    pub flush-IsClosed :
        (h : Trace) (c : Context W)
        → Inv start h c
        → settled h ≡ true
        → 0 < c.transaction.source_transactions
        → let (r, c') = flush_grouped_transaction t cfg c in IsClosed h c' r
    unfolding flush_grouped_transaction
    flush-IsClosed h c i s n =
        let c1 = record c {
          transaction = record c.transaction { pending_file_checkpoint = none };
        } in
        ground (arith, group-IsClosed h c1)
