-- ===== src/Stream/Transaction/Group.antt =====
-- The commit of a group (commit_target_group, flush_grouped_transaction and should_flush of
-- src/live/structured_stream/transaction.rs), for any settings.
use mariadb_mysql_cdc.Prelude.{
  ℕ, ◌<◌, ◌≤◌, ◌-◌, Name, Bool, true, false, ◌≡◌, ◌≢◌, ◌↔◌, max, ◌⊎◌, inl, inr, none, some, arith,
}
use mariadb_mysql_cdc.Stream.Types.{
  Checkpoint, EventHeader, BinlogEvent, ApplyBinlogError, target, raw,
}
use mariadb_mysql_cdc.Stream.Exec.{ok, err}
use mariadb_mysql_cdc.Stream.Target.{Target, Policies, done, failed, Reply-cases}
use mariadb_mysql_cdc.Stream.Context.{
  TargetTransaction, TargetTransactionGroupConfig, Settings, Context, new_transaction,
}
use mariadb_mysql_cdc.Stream.Handler.{handle_structured_event}
use mariadb_mysql_cdc.Stream.Transaction.{
  write_pending, finish_if_open, rollback_if_open, commit_target_group, flush_grouped_transaction,
  should_flush, group_timed_out, flush_first, handle_or_rollback,
}
use mariadb_mysql_cdc.Stream.Contract.{store, Contract}
use mariadb_mysql_cdc.Stream.Transaction.Handled.{IsPlain}
use mariadb_mysql_cdc.Stream.Transaction.Handled.Reported.{handle-IsRefused}
use mariadb_mysql_cdc.Stream.Transaction.Commit.{write-IsWritten, commit-IsCommitted}

module _ {W : Type 0} {t : Target W} {p : Policies} (k : Contract t p) (cfg : Settings)
    (table name : Name) (candidate : Checkpoint) (c : Context W)
    (has_table : cfg.transaction_checkpoint_table ≡ some table)
    (has_name : cfg.transaction_checkpoint_name ≡ some name) (opened : c.transaction.is_open ≡ true)
    (pending : c.transaction.pending_transaction_checkpoint ≡ some candidate) where
  -- Where checkpoints are kept in a target table and one is pending in an open transaction, the rows
  -- and the checkpoint of a group commit atomically: with any result, either nothing more
  -- is durable or all rows of the session are, with the checkpoint that was pending; and a
  -- commit that succeeds made them durable and left a new transaction.
  pub commit_target_group-atomic :
      let (result, d) = commit_target_group t cfg c in
      ((k.durable d.world ≡ k.durable c.world)
        ⊎ (k.durable d.world ≡ store candidate (k.working c.world)))
      × ((result ≢ ok tt)
          ⊎ ((k.durable d.world ≡ store candidate (k.working c.world))
              × (d.transaction ≡ new_transaction)))
  unfolding commit_target_group new_transaction
  commit_target_group-atomic =
      let c1 = record c {
        transaction = record c.transaction { pending_transaction_checkpoint = none };
      } in
      let c2 = (write_pending t cfg (some candidate) (some table) (some name) c1).1 in
      let written = write-IsWritten k cfg table name candidate c1 in
      let committed = commit-IsCommitted k cfg c2 in
      (ground (arith, written, committed), ground (arith, written, committed))

  timed_out_flushes :
      (opened_at : ℕ)
      → 0 < c.transaction.source_transactions
      → 0 < cfg.group_config.timeout
      → c.transaction.opened_at ≡ some opened_at
      → cfg.group_config.timeout ≤ t.now c.world - opened_at
      → should_flush cfg.group_config false (t.now c.world) c.transaction ≡ true
  unfolding should_flush group_timed_out
  timed_out_flushes opened_at n l o e = ground arith

  flush_grouped_transaction-stores :
      0 < c.transaction.source_transactions
      → c.transaction.pending_file_checkpoint ≡ none
      → let (result, d) = flush_grouped_transaction t cfg c in
        result ≡ ok tt → k.durable d.world ≡ store candidate (k.working c.world)
  unfolding flush_grouped_transaction commit_target_group
  flush_grouped_transaction-stores n f e =
      let c1 = record c {
        transaction = record c.transaction {
          pending_file_checkpoint = none;
          pending_transaction_checkpoint = none;
        };
      } in
      let c2 = (write_pending t cfg (some candidate) (some table) (some name) c1).1 in
      let written = write-IsWritten k cfg table name candidate c1 in
      let committed = commit-IsCommitted k cfg c2 in ground (arith, written, committed)

  -- Where checkpoints are kept in a target table, one is pending in an open group and no file
  -- checkpoint is, the group has a complete source transaction and its timeout is over, the flush before the next event, of any kind, makes durable, where it
  -- succeeds, all rows that the session has applied, those of an unfinished source transaction too,
  -- with the checkpoint that is pending, whichever event it was remembered for.
  pub timed_out_group-commits_all_rows :
      (event : BinlogEvent) (opened_at : ℕ)
      → 0 < c.transaction.source_transactions
      → 0 < cfg.group_config.timeout
      → c.transaction.opened_at ≡ some opened_at
      → cfg.group_config.timeout ≤ t.now c.world - opened_at
      → c.transaction.pending_file_checkpoint ≡ none
      → let (result, d) = flush_first t cfg p event c in
        result ≡ ok tt → k.durable d.world ≡ store candidate (k.working c.world)
  timed_out_group-commits_all_rows event opened_at n l o e f =
      let due = timed_out_flushes opened_at n l o e in
      ground (arith, flush_grouped_transaction-stores n f)

module _ {W : Type 0} {t : Target W} {p : Policies} (k : Contract t p) (cfg : Settings) where
  -- An event that is refused in an open transaction, and that is no schema change, leaves nothing
  -- durable. Where the rollback is done, the refusal is the result and the transaction is closed,
  -- with no transaction counted, no start and no checkpoint pending. Where the rollback fails, its
  -- failure is the result and the transaction stays as it was.
  pub handle_or_rollback-resets :
      (header : EventHeader) (event : BinlogEvent) (c : Context W) (x : ApplyBinlogError)
      → IsPlain p event
      → k.active c.world ≡ true
      → c.transaction.is_open ≡ true
      → (handle_structured_event t p header event c).0 ≡ err x
      → let rolled_back =
          (t.rollback_transaction (handle_structured_event t p header event c).1.world).0 in
        let (result, d) = handle_or_rollback t cfg p header event c in
        (k.durable d.world ≡ k.durable c.world)
        × (((rolled_back ≡ done tt)
              × (result ≡ err x)
              × (d.transaction.is_open ≡ false)
              × (d.transaction.source_transactions ≡ 0)
              × (d.transaction.opened_at ≡ none)
              × (d.transaction.pending_file_checkpoint ≡ none)
              × (d.transaction.pending_transaction_checkpoint ≡ none))
            ⊎ ((failure : Name) × (rolled_back ≡ failed failure)
                × (result ≡ err (target (raw failure)))
                × (d.transaction ≡ c.transaction)))
  unfolding handle_or_rollback rollback_if_open finish_if_open new_transaction
  handle_or_rollback-resets header event c x plain active o e =
      let refused = handle_structured_event t p header event c in
      let r = handle-IsRefused k header event c plain (λ _. active) in
      let kept = k.rollback_durable refused.1.world in
      elim (Reply-cases (t.rollback_transaction refused.1.world).0) [
        | inl (_, back) ↦
            (ground (arith, r.transaction, r.durable, kept), inl (ground (arith, r.transaction)))
        | inr (f, lost) ↦ (
          ground (arith, r.transaction, r.durable, kept),
          inr (f, lost, ground (arith, r.transaction), ground (arith, r.transaction)),
        )
      ]

-- A group is due exactly where it has a complete source transaction and is forced, full, or over
-- its timeout.
pub should_flush-due :
    (config : TargetTransactionGroupConfig) (force : Bool) (now : ℕ) (tx : TargetTransaction)
    → config.timeout ≡ 0
    → (should_flush config force now tx ≡ true) ↔ (
        (0 < tx.source_transactions)
        × ((force ≡ true) ⊎ (config.size ≤ max 1 tx.source_transactions)))
unfolding should_flush group_timed_out
should_flush-due config force now tx z = (λ e. (ground arith, ground arith), λ e. ground arith)
