-- ===== src/Stream/Tests.antt =====
-- Runs of the stream on a session (src/live), and the properties at them.
mod Group
mod Decisions
mod Reconnects
use mariadb_mysql_cdc.Prelude.{
  ℕ, ◌<◌, Name, codes, Bool, true, false, Option, none, some, List, [], ◌∷◌, ◌≡◌, refl, arith,
  contains, insert_set, remove_set, ◌=?◌,
}
use mariadb_mysql_cdc.Stream.Types.{
  BinlogCoordinate, Checkpoint, EventHeader, RowsEvent, BinlogEvent, query, table_map, write_rows,
  xid, text, raw, QueryEvent,
}
use mariadb_mysql_cdc.Stream.Exec.{ok}
use mariadb_mysql_cdc.Stream.Context.{new_transaction, Settings}
use mariadb_mysql_cdc.Stream.Loop.Ends.{Ends, stream_events-ok_at_stop}
use mariadb_mysql_cdc.Stream.Contract.{Content, Contract}
use mariadb_mysql_cdc.Stream.Session.{Session, session, policies, contract}
use mariadb_mysql_cdc.Stream.Transaction.Trace.{IsPoint}
use mariadb_mysql_cdc.Stream.Transaction.Commit.{AtomicMode}
use mariadb_mysql_cdc.Stream.Event.{
  new_event_state, record_event_position, stop_position_decision, bounded_stop_completion_error,
  update_source_row_transaction_state, event_coordinate, resume_coordinate, should_apply_schema,
  ignore_table_id, apply_table_id, is_ignored_table_id, clear_query_context,
}
use mariadb_mysql_cdc.Stream.Handler.{
  apply_table_map_event, apply_rows_event, query_references_source_schema, query_event_precheck,
  apply_intvar, apply_intvars, apply_query_context, apply_query_statement, apply_query_event,
  invalidate_after, apply_structured_event, handle_structured_event,
}
use mariadb_mysql_cdc.Stream.Checkpoints.{
  coordinate_checkpoint, binlog_coordinate_is_before, ensure_coordinate_advances,
  should_skip_checkpoint, save_checkpoint_if_advanced, save_coordinate_checkpoint,
  lock_validate_and_save_checkpoint,
}
use mariadb_mysql_cdc.Stream.Transaction.{
  record_source_transaction, group_timed_out, should_flush, event_can_write_target, begin_if_needed,
  finish_if_open, commit_if_open, rollback_if_open, write_pending, commit_target_group,
  flush_grouped_transaction, save_outcome_checkpoint, remember_file_checkpoint,
  finish_source_transaction, handle_or_rollback, apply_stream_event_transactionally,
}
use mariadb_mysql_cdc.Stream.Loop.{
  Received, event, failure, initialize, rollback_stream_transaction, complete_bounded_stop,
  finish_stream, process_stream_event, stream_events,
}
use mariadb_mysql_cdc.Stream.Loop.Source.{IsSourceStream}
use mariadb_mysql_cdc.Stream.Loop.Atomic.{history}
use mariadb_mysql_cdc.Stream.Loop.Points.{stream_events-IsPoint}

abbrev pub file : Name
file = codes "mysqld-bin.000001"

abbrev pub head : ℕ → EventHeader
head end = record { event_length = 10; next_event_position = end }

abbrev pub insert_of : Name → BinlogEvent
insert_of image = write_rows (record { table_id = 7; rows = image })

abbrev pub begin_of : BinlogEvent
begin_of = query (record { database_name = codes "shop"; sql_statement = codes "BEGIN" })

-- Two source transactions, and a third whose row event the target refuses.
abbrev pub items : List Received
items =
    event (head 20) begin_of 10
    ∷ event (head 30) (table_map 7 (codes "shop") (codes "orders")) 20
    ∷ event (head 40) (insert_of (codes "a")) 30
    ∷ event (head 50) xid 40
    ∷ event (head 60) (insert_of (codes "b")) 50
    ∷ event (head 70) xid 60
    ∷ event (head 80) (insert_of []) 70
    ∷ failure (raw (codes "eof"))
    ∷ []

abbrev pub first_checkpoint : Checkpoint
first_checkpoint = record {
  source_file = file;
  source_position = 4;
  gtid = none;
  event_timestamp = 0;
  last_event = record { event_type = codes "Start"; description = text [] };
}

abbrev pub empty_content : Content
empty_content = record { applied = []; stored = some first_checkpoint }

abbrev pub initial : Session
initial = record { durable = empty_content; working = empty_content; active = false; clock = 5 }

abbrev pub settings : ℕ → ℕ → Settings
settings size timeout = record {
  has_checkpoint_store = true;
  transaction_checkpoint_table = some (codes "cdc.stream_checkpoint");
  transaction_checkpoint_name = some (codes "shop");
  group_config = record { size = size; timeout = timeout };
}

abbrev atomic : (size : ℕ) → AtomicMode (settings size 0)
atomic size = record {
  table = codes "cdc.stream_checkpoint";
  name = codes "shop";
  has_table = refl;
  has_name = refl;
  no_timeout = refl;
}

items-IsSourceStream : IsSourceStream policies false items
items-IsSourceStream = ground arith

stream_events-IsPoint_example :
    let r = initialize (some (codes "shop")) file initial in
    let k = contract in
    let cfg = settings 2 0 in
    IsPoint
      (k.durable initial)
      (k.durable (stream_events session cfg policies none items r).1.context.world)
      (history k cfg (k.durable initial) (atomic 2) none items [] r)
stream_events-IsPoint_example =
    stream_events-IsPoint contract (settings 2 0) (atomic 2) none (some (codes "shop")) file initial
      items items-IsSourceStream

bounded_run :
    (stream_events session
      (settings 2 0)
      policies
      (some 50)
      items
      (initialize (some (codes "shop")) file initial)).0
    ≡ ok tt
unfolding initialize new_event_state record_event_position process_stream_event
    stop_position_decision update_source_row_transaction_state stream_events finish_stream
    complete_bounded_stop bounded_stop_completion_error rollback_stream_transaction
    apply_stream_event_transactionally should_flush group_timed_out event_can_write_target
    begin_if_needed handle_or_rollback rollback_if_open record_source_transaction
    finish_source_transaction save_outcome_checkpoint save_coordinate_checkpoint
    save_checkpoint_if_advanced should_skip_checkpoint remember_file_checkpoint
    flush_grouped_transaction commit_target_group write_pending lock_validate_and_save_checkpoint
    ensure_coordinate_advances binlog_coordinate_is_before coordinate_checkpoint commit_if_open
    finish_if_open new_transaction handle_structured_event event_coordinate resume_coordinate
    apply_structured_event apply_table_map_event should_apply_schema ignore_table_id apply_table_id
    apply_rows_event is_ignored_table_id contains insert_set remove_set apply_query_event
    query_event_precheck query_references_source_schema clear_query_context apply_query_context
    apply_intvars apply_intvar apply_query_statement invalidate_after ◌=?◌
bounded_run = refl

stream_events-ok_at_stop_example : (position : ℕ) × (some 50 ≡ some position) × Ends position items
stream_events-ok_at_stop_example =
    stream_events-ok_at_stop session (settings 2 0) policies (some 50) items
      (initialize (some (codes "shop")) file initial) bounded_run

-- The refused row event of the third transaction is rolled back; the two before it are durable.
run_durable :
    (stream_events session
      (settings 2 0)
      policies
      none
      items
      (initialize (some (codes "shop")) file initial)).1.context.world.durable.applied
    ≡ insert_of (codes "a") ∷ insert_of (codes "b") ∷ []
unfolding initialize new_event_state record_event_position process_stream_event
    stop_position_decision update_source_row_transaction_state stream_events finish_stream
    complete_bounded_stop bounded_stop_completion_error rollback_stream_transaction
    apply_stream_event_transactionally should_flush group_timed_out event_can_write_target
    begin_if_needed handle_or_rollback rollback_if_open record_source_transaction
    finish_source_transaction save_outcome_checkpoint save_coordinate_checkpoint
    save_checkpoint_if_advanced should_skip_checkpoint remember_file_checkpoint
    flush_grouped_transaction commit_target_group write_pending lock_validate_and_save_checkpoint
    ensure_coordinate_advances binlog_coordinate_is_before coordinate_checkpoint commit_if_open
    finish_if_open new_transaction handle_structured_event event_coordinate resume_coordinate
    apply_structured_event apply_table_map_event should_apply_schema ignore_table_id apply_table_id
    apply_rows_event is_ignored_table_id contains insert_set remove_set apply_query_event
    query_event_precheck query_references_source_schema clear_query_context apply_query_context
    apply_intvars apply_intvar apply_query_statement invalidate_after ◌=?◌
run_durable = refl
