-- ===== src/Stream/Transaction.antt =====
-- The grouped target transaction (src/live/structured_stream/transaction.rs).
pub mod Trace
pub mod Handled
pub mod Commit
pub mod Step
pub mod Record
pub mod Event
pub mod Group
use mariadb_mysql_cdc.Prelude.{
  ℕ, ◌+◌, ◌-◌, max, Name, codes, Bool, true, false, ◌&&◌, ◌||◌, not, Option, none, some, is_some,
  ltb, leb, if◌then◌else◌,
}
use mariadb_mysql_cdc.Stream.Types.{
  BinlogCoordinate, Checkpoint, EventHeader, BinlogEvent, delete_rows, update_rows, write_rows, xid,
  int_var, user_var, query, table_map, rotate, rows_query, other, EventPolicy, commit_transaction,
  StructuredEventOutcome,
}
use mariadb_mysql_cdc.Stream.Exec.{ok, err, Exec, pure, raise, modify, ◌>>=◌, ◌>>◌}
use mariadb_mysql_cdc.Stream.Event.{StructuredEventState, should_apply_schema, is_ignored_table_id}
use mariadb_mysql_cdc.Stream.Target.{Target, Policies, Call}
use mariadb_mysql_cdc.Stream.Context.{
  TargetTransaction, new_transaction, TargetTransactionGroupConfig, Settings, Context, in_world,
  call,
}
use mariadb_mysql_cdc.Stream.Checkpoints.{
  coordinate_checkpoint, save_coordinate_checkpoint, lock_validate_and_save_checkpoint,
}
use mariadb_mysql_cdc.Stream.Handler.{handle_structured_event}

unfoldable pub from_apply_config : ℕ → ℕ → TargetTransactionGroupConfig
from_apply_config size timeout = record { size = max size 1; timeout = timeout }

unfoldable pub record_source_transaction : TargetTransaction → TargetTransaction
record_source_transaction tx =
    if tx.is_open then record tx { source_transactions = tx.source_transactions + 1 } else tx

abbrev pub has_completed_source_transactions : TargetTransaction → Bool
has_completed_source_transactions tx = ltb 0 tx.source_transactions

-- `elapsed` is the time since `opened_at`; an instant never lies in the future.
unfoldable pub group_timed_out : TargetTransactionGroupConfig → ℕ → TargetTransaction → Bool
group_timed_out config now tx =
    ltb 0 config.timeout
    && elim tx.opened_at [ none ↦ false | some opened ↦ leb config.timeout (now - opened) ]

unfoldable pub should_flush : TargetTransactionGroupConfig → Bool → ℕ → TargetTransaction → Bool
unfolding group_timed_out
should_flush config force now tx =
    has_completed_source_transactions tx
    && (force
        || leb config.size 1
        || leb config.size tx.source_transactions
        || group_timed_out config now tx)

abbrev pub event_name : BinlogEvent → Name
event_name (delete_rows _) = codes "DeleteRowsEvent"
event_name (update_rows _) = codes "UpdateRowsEvent"
event_name (write_rows _) = codes "WriteRowsEvent"
event_name xid = codes "XidEvent"
event_name (int_var _ _) = codes "IntVarEvent"
event_name (user_var _) = codes "UserVarEvent"
event_name (query _) = codes "QueryEvent"
event_name (table_map _ _ _) = codes "TableMapEvent"
event_name (rotate _ _) = codes "RotateEvent"
event_name rows_query = codes "RowsQueryEvent"
event_name (other name) = name

unfoldable pub event_can_write_target : Policies → StructuredEventState → BinlogEvent → Bool
event_can_write_target p s (write_rows rows) = not (is_ignored_table_id s rows.table_id)
event_can_write_target p s (update_rows rows) = not (is_ignored_table_id s rows.table_id)
event_can_write_target p s (delete_rows rows) = not (is_ignored_table_id s rows.table_id)
event_can_write_target p s (query q) =
    should_apply_schema s q.database_name && not (p.is_data_changing_statement q.sql_statement)
event_can_write_target p s _ = false

abbrev pub is_query : BinlogEvent → Bool
is_query (query _) = true
is_query _ = false

abbrev pub is_rotate : BinlogEvent → Bool
is_rotate (rotate _ _) = true
is_rotate _ = false

abbrev pub is_commit : EventPolicy → Bool
is_commit commit_transaction = true
is_commit _ = false

module _ {W : Type 0} (t : Target W) (cfg : Settings) where
  abbrev pub update_transaction :
      (TargetTransaction → TargetTransaction) → Exec (Context W) (Unit {0})
  update_transaction f = modify (λ c. record c { transaction = f c.transaction })

  unfoldable pub begin_if_needed : Exec (Context W) (Unit {0})
  begin_if_needed c =
      (if c.transaction.is_open then pure tt else (do
        call t.begin_transaction
        modify (λ c'. record c' {
          transaction = record c'.transaction { is_open = true; opened_at = some (t.now c'.world) };
        })))
        c

  unfoldable pub finish_if_open : Call W (Unit {0}) → Exec (Context W) (Unit {0})
  unfolding new_transaction
  finish_if_open finish c =
      (if c.transaction.is_open
          then (do call finish; update_transaction (λ _. new_transaction))
          else pure tt)
        c

  unfoldable pub commit_if_open : Exec (Context W) (Unit {0})
  unfolding finish_if_open
  commit_if_open = finish_if_open t.commit_transaction

  unfoldable pub rollback_if_open : Exec (Context W) (Unit {0})
  unfolding finish_if_open
  rollback_if_open = finish_if_open t.rollback_transaction

  abbrev pub remember_transaction_checkpoint : Checkpoint → Exec (Context W) (Unit {0})
  remember_transaction_checkpoint candidate =
      update_transaction (λ tx. record tx { pending_transaction_checkpoint = some candidate })

  -- A write that fails keeps the checkpoint pending.
  unfoldable pub write_pending :
      Option Checkpoint → Option Name → Option Name → Exec (Context W) (Unit {0})
  write_pending (some candidate) (some table) (some name) c =
      elim (lock_validate_and_save_checkpoint t table name candidate c).0 [
        | ok _ ↦ lock_validate_and_save_checkpoint t table name candidate c
        | err e ↦
            (remember_transaction_checkpoint candidate >> raise e)
              (lock_validate_and_save_checkpoint t table name candidate c).1
      ]
  write_pending _ _ _ c = pure tt c

  unfoldable pub commit_target_group : Exec (Context W) (Unit {0})
  commit_target_group c =
      let pending = c.transaction.pending_transaction_checkpoint in
      (do
        update_transaction (λ tx. record tx { pending_transaction_checkpoint = none })
        write_pending pending cfg.transaction_checkpoint_table cfg.transaction_checkpoint_name
        commit_if_open)
        c

  abbrev restore_file : Option Checkpoint → TargetTransaction → TargetTransaction
  restore_file none tx = tx
  restore_file (some saved) tx = record tx { pending_file_checkpoint = some saved }

  abbrev save_file : Option Checkpoint → Exec (Context W) (Unit {0})
  save_file none = pure tt
  save_file (some saved) =
      if cfg.has_checkpoint_store then in_world (t.save_checkpoint saved) else pure tt

  unfoldable pub flush_grouped_transaction : Exec (Context W) (Unit {0})
  flush_grouped_transaction c =
      let saved = c.transaction.pending_file_checkpoint in
      let (result, c') =
        commit_target_group
          (record c { transaction = record c.transaction { pending_file_checkpoint = none } }) in
      if has_completed_source_transactions c.transaction
      then elim result [
        | ok _ ↦ save_file saved c'
        | err e ↦ (update_transaction (restore_file saved) >> raise e) c'
      ]
      else pure tt c

  abbrev uses_transaction_checkpoint : TargetTransaction → Bool
  uses_transaction_checkpoint tx =
      tx.is_open
      && is_some cfg.transaction_checkpoint_table
      && is_some cfg.transaction_checkpoint_name

  abbrev move_to : BinlogCoordinate → Exec (Context W) (Unit {0})
  move_to coordinate = modify (λ c. record c { current_file = coordinate.file })

  unfoldable pub save_outcome_checkpoint :
      BinlogEvent → Option BinlogCoordinate → Exec (Context W) (Unit {0})
  save_outcome_checkpoint event none c = pure tt c
  save_outcome_checkpoint event (some coordinate) c =
      (if uses_transaction_checkpoint c.transaction
          then (do
            remember_transaction_checkpoint (coordinate_checkpoint coordinate (event_name event))
            move_to coordinate)
          else (do
            in_world (
                save_coordinate_checkpoint t cfg.has_checkpoint_store coordinate (event_name event))
            move_to coordinate))
        c

  unfoldable pub remember_file_checkpoint :
      BinlogEvent → Option BinlogCoordinate → Exec (Context W) (Unit {0})
  remember_file_checkpoint event none = pure tt
  remember_file_checkpoint event (some coordinate) = do
    update_transaction (λ tx. record tx {
      pending_file_checkpoint = some (coordinate_checkpoint coordinate (event_name event));
    })
    move_to coordinate

  abbrev flush_when : Bool → Exec (Context W) (Unit {0}) → Exec (Context W) (Unit {0})
  flush_when force flush c =
      (if should_flush cfg.group_config force (t.now c.world) c.transaction then flush else pure tt)
        c

  unfoldable pub finish_source_transaction :
      BinlogEvent → Option BinlogCoordinate → Bool → Exec (Context W) (Unit {0})
  finish_source_transaction event coordinate force =
      update_transaction record_source_transaction
      >> (if is_some cfg.transaction_checkpoint_table
          then (save_outcome_checkpoint event coordinate >> flush_when force commit_target_group)
          else (remember_file_checkpoint event coordinate
              >> flush_when force flush_grouped_transaction))

  module _ (p : Policies) where
    abbrev pub flush_first : BinlogEvent → Exec (Context W) (Unit {0})
    flush_first event c =
        (if should_flush cfg.group_config false (t.now c.world) c.transaction || is_rotate event
            then flush_grouped_transaction
            else pure tt)
          c

    abbrev pub begin_for : BinlogEvent → Exec (Context W) (Unit {0})
    begin_for event c =
        (if event_can_write_target p c.state event then begin_if_needed else pure tt) c

    -- A failed event rolls the target transaction back; a failed rollback is the error then.
    unfoldable pub handle_or_rollback :
        EventHeader → BinlogEvent → Exec (Context W) StructuredEventOutcome
    handle_or_rollback header event c = elim (handle_structured_event t p header event c).0 [
      | ok outcome ↦ handle_structured_event t p header event c
      | err e ↦ (rollback_if_open >> raise e) (handle_structured_event t p header event c).1
    ]

    abbrev record_outcome :
        BinlogEvent → StructuredEventOutcome → Exec (Context W) StructuredEventOutcome
    record_outcome event outcome =
        (if is_commit outcome.policy
          then finish_source_transaction event outcome.resume_coordinate (is_query event)
          else save_outcome_checkpoint event outcome.resume_coordinate)
        >> pure outcome

    unfoldable pub apply_stream_event_transactionally :
        EventHeader → BinlogEvent → Exec (Context W) StructuredEventOutcome
    apply_stream_event_transactionally header event = do
      flush_first event
      begin_for event
      outcome ← handle_or_rollback header event
      record_outcome event outcome
