-- ===== src/Stream/Tests/Group.antt =====
-- The commit of a group on a session: src/live/structured_stream/transaction.rs.
use mariadb_mysql_cdc.Prelude.{
  ℕ, Name, codes, true, false, none, some, List, [], ◌∷◌, ◌≡◌, ◌≢◌, ◌⊎◌, ◌↔◌, ◌<◌, ◌≤◌, max, refl,
  arith, contains, insert_set, remove_set, ◌=?◌,
}
use mariadb_mysql_cdc.Stream.Types.{
  BinlogCoordinate, Checkpoint, coordinate_of, BinlogEvent, target, raw,
}
use mariadb_mysql_cdc.Stream.Exec.{ok, err}
use mariadb_mysql_cdc.Stream.Event.{
  StructuredEventState, event_coordinate, resume_coordinate, should_apply_schema, ignore_table_id,
  apply_table_id, is_ignored_table_id, clear_query_context,
}
use mariadb_mysql_cdc.Stream.Target.{done, failed}
use mariadb_mysql_cdc.Stream.Context.{Context, new_transaction}
use mariadb_mysql_cdc.Stream.Contract.{store}
use mariadb_mysql_cdc.Stream.Session.{Session, session, policies, contract}
use mariadb_mysql_cdc.Stream.Checkpoints.{
  binlog_coordinate_is_before, coordinate_checkpoint, ensure_coordinate_advances,
  lock_validate_and_save_checkpoint,
}
use mariadb_mysql_cdc.Stream.Checkpoints.Advance.{
  lock_validate_and_save_checkpoint-advances, lock_validate_and_save_checkpoint-refuses,
}
use mariadb_mysql_cdc.Stream.Handler.{
  apply_table_map_event, apply_rows_event, query_references_source_schema, query_event_precheck,
  apply_intvar, apply_intvars, apply_query_context, apply_query_statement, apply_query_event,
  invalidate_after, apply_structured_event, handle_structured_event,
}
use mariadb_mysql_cdc.Stream.Transaction.{
  group_timed_out, finish_if_open, commit_if_open, write_pending, flush_grouped_transaction,
  commit_target_group, flush_first, should_flush, handle_or_rollback,
}
use mariadb_mysql_cdc.Stream.Transaction.Group.{
  commit_target_group-atomic, timed_out_group-commits_all_rows, handle_or_rollback-resets,
  should_flush-due,
}
use mariadb_mysql_cdc.Stream.Tests.{
  file, head, insert_of, first_checkpoint, empty_content, initial, settings,
}

abbrev table : Name
table = codes "cdc.stream_checkpoint"

abbrev name : Name
name = codes "shop"

abbrev pub at : ℕ → BinlogCoordinate
at position = record { file = file; position = position }

abbrev pub second_checkpoint : Checkpoint
second_checkpoint = record first_checkpoint { source_position = 50 }

-- The first row event is of a complete source transaction, the second of one that is not.
abbrev pub two_rows : List BinlogEvent
two_rows = insert_of (codes "a") ∷ insert_of (codes "b") ∷ []

abbrev pub state : StructuredEventState
state = record {
  source_database = some name;
  ignored_table_ids = [];
  current_event_position = none;
  pending_intvars = [];
  pending_uservars = [];
}

-- A transaction open since second 1 in a session that is at second 5.
abbrev pub grouped : Context Session
grouped = record {
  world = record initial { working = record empty_content { applied = two_rows }; active = true };
  transaction = record {
    is_open = true;
    source_transactions = 1;
    opened_at = some 1;
    pending_file_checkpoint = none;
    pending_transaction_checkpoint = some second_checkpoint;
  };
  state = state;
  current_file = file;
}

commit_target_group-atomic_example :
    let (result, d) = commit_target_group session (settings 2 0) grouped in
    ((contract.durable d.world ≡ contract.durable grouped.world)
      ⊎ (contract.durable d.world ≡ store second_checkpoint (contract.working grouped.world)))
    × ((result ≢ ok tt)
        ⊎ ((contract.durable d.world ≡ store second_checkpoint (contract.working grouped.world))
            × (d.transaction ≡ new_transaction)))
commit_target_group-atomic_example =
    commit_target_group-atomic contract (settings 2 0) table name second_checkpoint grouped refl
      refl refl refl

flushed : (flush_first session (settings 9 3) policies (insert_of (codes "c")) grouped).0 ≡ ok tt
unfolding should_flush group_timed_out flush_grouped_transaction commit_target_group write_pending
    lock_validate_and_save_checkpoint ensure_coordinate_advances binlog_coordinate_is_before
    coordinate_checkpoint commit_if_open finish_if_open new_transaction ◌=?◌
flushed = refl

timed_out_group-commits_all_rows_example :
    let d = (flush_first session (settings 9 3) policies (insert_of (codes "c")) grouped).1 in
    contract.durable d.world ≡ store second_checkpoint (contract.working grouped.world)
timed_out_group-commits_all_rows_example =
    timed_out_group-commits_all_rows contract (settings 9 3) table name second_checkpoint grouped
      refl refl refl refl (insert_of (codes "c")) 1 (ground arith) (ground arith) refl
      (ground arith) refl flushed

session_active : contract.active grouped.world ≡ true
unfolding contract
session_active = refl

refused :
    (handle_structured_event session policies (head 90) (insert_of []) grouped).0
    ≡ err (target (raw []))
unfolding handle_structured_event event_coordinate resume_coordinate apply_structured_event
    apply_table_map_event should_apply_schema ignore_table_id apply_table_id apply_rows_event
    is_ignored_table_id contains insert_set remove_set apply_query_event query_event_precheck
    query_references_source_schema clear_query_context apply_query_context apply_intvars
    apply_intvar apply_query_statement invalidate_after ◌=?◌
refused = refl

handle_or_rollback-resets_example :
    let (result, d) =
      handle_or_rollback session (settings 9 0) policies (head 90) (insert_of []) grouped in
    let rolled_back =
      (session.rollback_transaction
        (handle_structured_event session policies (head 90) (insert_of []) grouped).1.world).0 in
    (contract.durable d.world ≡ contract.durable grouped.world)
    × (((rolled_back ≡ done tt)
          × (result ≡ err (target (raw [])))
          × (d.transaction.is_open ≡ false)
          × (d.transaction.source_transactions ≡ 0)
          × (d.transaction.opened_at ≡ none)
          × (d.transaction.pending_file_checkpoint ≡ none)
          × (d.transaction.pending_transaction_checkpoint ≡ none))
        ⊎ ((failure : Name) × (rolled_back ≡ failed failure)
            × (result ≡ err (target (raw failure)))
            × (d.transaction ≡ grouped.transaction)))
handle_or_rollback-resets_example =
    handle_or_rollback-resets contract (settings 9 0) (head 90) (insert_of []) grouped
      (target (raw [])) tt session_active refl refused

should_flush-due_example :
    (should_flush (record { size = 1; timeout = 0 }) false 5 grouped.transaction ≡ true)
    ↔ ((0 < 1) × ((false ≡ true) ⊎ (1 ≤ max 1 1)))
should_flush-due_example =
    should_flush-due (record { size = 1; timeout = 0 }) false 5 grouped.transaction refl

saved : (lock_validate_and_save_checkpoint session table name second_checkpoint grouped).0 ≡ ok tt
unfolding lock_validate_and_save_checkpoint ensure_coordinate_advances binlog_coordinate_is_before
    ◌=?◌
saved = refl

lock_validate_and_save_checkpoint-advances_example :
    let d = (lock_validate_and_save_checkpoint session table name second_checkpoint grouped).1 in
    (current : Checkpoint) × ((contract.working grouped.world).stored ≡ some current)
    × (binlog_coordinate_is_before (coordinate_of second_checkpoint) (coordinate_of current)
        ≡ false)
    × (contract.working d.world ≡ store second_checkpoint (contract.working grouped.world))
lock_validate_and_save_checkpoint-advances_example =
    lock_validate_and_save_checkpoint-advances contract table name second_checkpoint grouped saved

abbrev stale_checkpoint : Checkpoint
stale_checkpoint = record first_checkpoint { source_position = 3 }

stored_first : (contract.working grouped.world).stored ≡ some first_checkpoint
unfolding contract
stored_first = refl

stale_before :
    binlog_coordinate_is_before (coordinate_of stale_checkpoint) (coordinate_of first_checkpoint)
    ≡ true
unfolding binlog_coordinate_is_before ◌=?◌
stale_before = refl

lock_validate_and_save_checkpoint-refuses_example :
    let (result, d) =
      lock_validate_and_save_checkpoint session table name stale_checkpoint grouped in
    (result ≢ ok tt)
    × (contract.working d.world ≡ contract.working grouped.world)
    × (contract.durable d.world ≡ contract.durable grouped.world)
lock_validate_and_save_checkpoint-refuses_example =
    lock_validate_and_save_checkpoint-refuses contract table name stale_checkpoint first_checkpoint
      grouped stored_first stale_before

-- The order of the file names is that of their texts: a log after number 999999 is before it.
longer_number_before :
    binlog_coordinate_is_before
      (record { file = codes "mysqld-bin.1000000"; position = 4 })
      (record { file = codes "mysqld-bin.999999"; position = 4 })
    ≡ true
unfolding binlog_coordinate_is_before ◌=?◌
longer_number_before = refl
