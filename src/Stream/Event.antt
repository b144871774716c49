-- ===== src/Stream/Event.antt =====
-- The state of the event handler and the pure decisions on events
-- (src/live/structured_stream.rs and src/live/structured_stream/event.rs).
pub mod Stop
use mariadb_mysql_cdc.Prelude.{
  ℕ, ◌+◌, ◌-◌, ◌^◌, min, Name, Bool, true, false, ◌||◌, Option, none, some, List, [], ◌∷◌, ◌++◌,
  ltb, ◌==◌, if◌then◌else◌, ◌=?◌, name_ord, nat_ord, contains, insert_set, remove_set,
}
use mariadb_mysql_cdc.Stream.Types.{
  BinlogCoordinate, EventHeader, BinlogEvent, delete_rows, update_rows, write_rows, xid, query,
  rotate, source_command, stop_in_open_transaction, stop_in_event, stop_unreachable,
  stop_in_partial_transaction,
}
use mariadb_mysql_cdc.Stream.Exec.{Result, ok, err}

pub record PendingIntVar : Type 0 where
  pub intvar_type : ℕ
  pub value : ℕ

pub record StructuredEventState : Type 0 where
  pub source_database : Option Name
  pub ignored_table_ids : List ℕ
  pub current_event_position : Option ℕ
  pub pending_intvars : List PendingIntVar
  pub pending_uservars : List Name

unfoldable pub new_event_state : Option Name → StructuredEventState
new_event_state source_database = record {
  source_database = source_database;
  ignored_table_ids = [];
  current_event_position = none;
  pending_intvars = [];
  pending_uservars = [];
}

unfoldable pub should_apply_schema : StructuredEventState → Name → Bool
should_apply_schema s schema = elim s.source_database [
  | none ↦ true
  | some source_database ↦ source_database =? schema
]

unfoldable pub record_event_position : ℕ → StructuredEventState → StructuredEventState
record_event_position position s = record s { current_event_position = some position }

unfoldable pub ignore_table_id : ℕ → StructuredEventState → StructuredEventState
ignore_table_id id s = record s { ignored_table_ids = insert_set id s.ignored_table_ids }

unfoldable pub apply_table_id : ℕ → StructuredEventState → StructuredEventState
apply_table_id id s = record s { ignored_table_ids = remove_set id s.ignored_table_ids }

unfoldable pub is_ignored_table_id : StructuredEventState → ℕ → Bool
is_ignored_table_id s id = contains id s.ignored_table_ids

unfoldable pub record_intvar : ℕ → ℕ → StructuredEventState → StructuredEventState
record_intvar intvar_type value s = record s {
  pending_intvars = s.pending_intvars ++ record { intvar_type = intvar_type; value = value } ∷ [];
}

unfoldable pub record_uservar : Name → StructuredEventState → StructuredEventState
record_uservar name s = record s { pending_uservars = s.pending_uservars ++ name ∷ [] }

unfoldable pub clear_query_context : StructuredEventState → StructuredEventState
clear_query_context s = record s { pending_intvars = []; pending_uservars = [] }

-- A coordinate to resume from, which only rotations, commits and queries have.
unfoldable pub resume_coordinate : Name → EventHeader → BinlogEvent → Option BinlogCoordinate
resume_coordinate file header (rotate name position) =
    some (record { file = name; position = position })
resume_coordinate file header xid =
    if ltb 0 header.next_event_position
    then some (record { file = file; position = header.next_event_position })
    else none
resume_coordinate file header (query q) =
    if ltb 0 header.next_event_position
    then some (record { file = file; position = header.next_event_position })
    else none
resume_coordinate _ _ _ = none

abbrev pub is_row_event : BinlogEvent → Bool
is_row_event (write_rows _) = true
is_row_event (update_rows _) = true
is_row_event (delete_rows _) = true
is_row_event _ = false

abbrev or_position : Option BinlogCoordinate → BinlogCoordinate → BinlogCoordinate
or_position none c = c
or_position (some c) _ = c

unfoldable pub event_coordinate : Name → EventHeader → BinlogEvent → Option ℕ → BinlogCoordinate
unfolding resume_coordinate
event_coordinate file header event position =
    let fallback =
      or_position (resume_coordinate file header event)
        (record { file = file; position = header.next_event_position }) in
    if is_row_event event
    then elim position [
      | some p ↦ record { file = file; position = p }
      | none ↦
          if ltb header.event_length header.next_event_position
          then record { file = file; position = header.next_event_position - header.event_length }
          else fallback
    ]
    else fallback

pub data StopPositionDecision : Type 0 where
  dispatch dispatch_and_stop : StopPositionDecision

-- `saturating_sub` is the truncated subtraction.
unfoldable pub stop_position_decision : Option ℕ → EventHeader → Bool → Result StopPositionDecision
stop_position_decision none header open_rows = ok dispatch
stop_position_decision (some stop) header open_rows =
    let event_end = header.next_event_position in
    let event_start = event_end - header.event_length in
    if event_end == 0 || ltb event_end stop
    then ok dispatch
    else if event_end == stop
    then ok dispatch_and_stop
    else if open_rows
    then err (source_command (stop_in_open_transaction stop event_end))
    else if ltb event_start stop
    then err (source_command (stop_in_event stop event_start event_end))
    else err (source_command (stop_unreachable stop event_end))

unfoldable pub bounded_stop_completion_error : Bool → Result (Unit {0})
bounded_stop_completion_error open_rows =
    if open_rows then err (source_command stop_in_partial_transaction) else ok tt

unfoldable pub update_source_row_transaction_state : Bool → BinlogEvent → Bool
update_source_row_transaction_state open_rows (write_rows _) = true
update_source_row_transaction_state open_rows (update_rows _) = true
update_source_row_transaction_state open_rows (delete_rows _) = true
update_source_row_transaction_state open_rows xid = false
update_source_row_transaction_state open_rows _ = open_rows

abbrev pub max_u64 : ℕ
max_u64 = 2 ^ 64 - 1

-- The read-ahead thread's position of the event after this one; the addition saturates at u64.
unfoldable pub next_source_position : ℕ → EventHeader → BinlogEvent → ℕ
next_source_position current header (rotate _ position) = position
next_source_position current header _ =
    if ltb 0 header.next_event_position
    then header.next_event_position
    else min (current + header.event_length) max_u64
